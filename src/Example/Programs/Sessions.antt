-- ===== src/Example/Programs/Sessions.antt =====
-- `main` of example/can_session.cpp and of example/serial_session.cpp, which print what arrives.
use transit_session.Base.{◌≡◌, refl, true, false, some-if, [], subst}
use transit_session.Errors.{failed}
use transit_session.Core.{construct, run_call, run_calls, schedule_operations, try_read, try_write}
use transit_session.Core.Trace.{writes}
use transit_session.Can.{CanConfig, default_can_config}
use transit_session.Can.Abi.{LinuxCan}
use transit_session.Can.Session.{CanSession, CanState, can_state, can_derived, no_own}
use transit_session.Can.Session as CanHooks
use transit_session.Can.Open as CanOpen
use transit_session.Can.Open.{Kernel}
use transit_session.Serial.{SerialPortConfig, full_duplex, no_parity, one, no_flow, serial_state}
use transit_session.Serial.Session.{SerialSession, serial_derived, run_serial_call}
use transit_session.Serial.Session as SerialHooks
use transit_session.Serial.Open as SerialOpen
use transit_session.Serial.Open.{Port}
use transit_session.Example.Programs.{
  Begun, returned, running, created, created_or, ReadHandler, first_calls, created-cases,
}
use transit_session.Example.Programs.Serial.{opened, create-opened}

unfoldable pub can_session_config : CanConfig
can_session_config = record default_can_config { interface_name = "can0"; enable_can_fd = true }

unfoldable pub begin_can_session : Kernel → LinuxCan → Begun (CanSession ReadHandler)
begin_can_session kernel abi =
    created (CanOpen.create kernel abi can_session_config)
      (λ s. running (run_calls (can_derived abi) (no_own abi) (first_calls []) s))

unfoldable pub serial_session_config : SerialPortConfig
serial_session_config = record {
  device_path = "/dev/ttyACM0";
  baud_rate = 115200;
  character_size = 8;
  parity = no_parity;
  stop_bits = one;
  flow_control = no_flow;
  duplex_mode = full_duplex;
  read_buffer_size = 1024;
}

-- The exit status of `return -1` is 255.
unfoldable pub begin_serial_session : Port → Begun (SerialSession ReadHandler)
begin_serial_session port =
    created_or 255 (SerialOpen.create port serial_session_config)
      (λ s. running (run_calls serial_derived run_serial_call (first_calls []) s))

-- The open session reads and writes nothing.
abbrev pub CanListens : Begun (CanSession ReadHandler) → Type 0
CanListens (returned code) = code ≡ 1
CanListens (running s) = (s.closed ≡ false) × (s.read_in_progress ≡ true) × (writes s.trace ≡ [])

abbrev pub SerialListens : Begun (SerialSession ReadHandler) → Type 0
SerialListens (returned code) = code ≡ 255
SerialListens (running s) = (s.closed ≡ false) × (s.read_in_progress ≡ true) × (writes s.trace ≡ [])

can_listens :
    (abi : LinuxCan) (d : CanState)
    → CanListens (running (run_calls (can_derived abi) (no_own abi) (first_calls []) (construct d)))
unfolding construct run_call run_calls schedule_operations try_read try_write
    CanHooks.can_start_read CanHooks.can_start_write CanHooks.do_read
can_listens abi d = (refl, refl, refl)

-- The CAN program returns 1, or it comes to `run` with an open session that reads.
pub begin_can_session_lem :
    (kernel : Kernel) (abi : LinuxCan) → CanListens (begin_can_session kernel abi)
unfolding begin_can_session CanOpen.create
begin_can_session_lem kernel abi =
    let opening = CanOpen.open_socket kernel abi can_session_config (can_state abi) in
    created-cases CanListens (CanOpen.create kernel abi can_session_config) _ refl (λ s e.
      let (_, same) = some-if (failed opening.0) (construct opening.2) e in
      subst
        (λ t. CanListens (running (run_calls (can_derived abi) (no_own abi) (first_calls []) t)))
        same (can_listens abi opening.2))

serial_listens :
    (port : Port)
    → SerialListens (
        running (
          run_calls serial_derived run_serial_call
            (first_calls [])
            (opened port serial_session_config (construct serial_state))))
unfolding construct serial_session_config run_call run_calls schedule_operations try_read try_write
    SerialHooks.can_start_read SerialHooks.can_start_write SerialHooks.do_read
serial_listens port = (refl, refl, refl)

-- The serial program returns -1, or it comes to `run` with an open session that reads.
pub begin_serial_session_lem : (port : Port) → SerialListens (begin_serial_session port)
unfolding begin_serial_session
begin_serial_session_lem port =
    created-cases SerialListens (SerialOpen.create port serial_session_config) _ refl (λ s e.
      subst
        (λ t. SerialListens (running (run_calls serial_derived run_serial_call (first_calls []) t)))
        (create-opened port serial_session_config s e) (serial_listens port))
