-- ===== src/Serial/Tests.antt =====
-- The theorems on serial sessions at a half-duplex port.
use transit_session.Base.{
  ◌≢◌, inr, ◌≡◌, refl, true, false, none, some, List, [], ◌∷◌, arith, length,
}
use transit_session.Errors.{ErrorCode, success, invalid_argument, failed}
use transit_session.Core.{
  Call, send, start_reading, set_read_handler, construct, run_call, accepted, log,
  schedule_operations, try_write, try_read, enqueue_write, notify_read, run_calls,
}
use transit_session.Core.Trace.{deliveries}
use transit_session.Core.Machine.{Reach, here, next, calls, read_completes}
use transit_session.Core.Arrival.{Arrival}
use transit_session.Serial.{
  SerialPortConfig, default_serial_config, half_duplex, full_duplex, serial_state,
}
use transit_session.Serial.Session.{
  Bytes, SerialSession, SerialCall, can_start_read, can_start_write, do_read, do_write,
  read_completed, serial_derived, serial_machine, run_serial_call,
}
use transit_session.Serial.Invariant.{SerialInv}
use transit_session.Serial.Liveness.{SerialSettled}
use transit_session.Serial.Created.{created-SerialInv}
use transit_session.Serial.Reconfigured.{SerialLife, created-SerialSettled, send-apply_config}
use transit_session.Serial.Open.{
  Port, baud_rate, set_options, configured, apply_config, open_port, create, open_port_lem,
}
use transit_session.Serial.Delivery.{serial_read-delivers, send_waits}

abbrev usb : Port
usb = record { open_answer = λ _. success; option_answer = λ _. success }

-- A port that does not know the baud rate.
abbrev slow_port : Port
slow_port = record {
  open_answer = λ _. success;
  option_answer = λ o. elim o as (λ _. ErrorCode) [ baud_rate _ ↦ invalid_argument | _ ↦ success ];
}

abbrev modbus : SerialPortConfig
modbus = record default_serial_config { duplex_mode = half_duplex; read_buffer_size = 4 }

abbrev opened : SerialSession (Unit {0})
opened =
    let s = construct serial_state in
    configured usb modbus (record s { own = record (s.own) { port_open = true } })

opened_created : (create usb modbus).0 ≡ some opened
unfolding create open_port apply_config set_options
opened_created = refl

rejected : (create {H = Unit {0}} slow_port modbus).0 ≡ none
unfolding create open_port apply_config set_options
rejected = refl

-- Every handler sends what it is given back.
abbrev echo : Unit {0} → ErrorCode → Bytes → List (Call Bytes (Unit {0}) SerialCall)
echo h ec bytes = send bytes ∷ []

abbrev listening : SerialSession (Unit {0})
listening =
    run_call serial_derived run_serial_call start_reading
      (run_call serial_derived run_serial_call (set_read_handler (some tt)) opened)

abbrev arrival : Arrival
arrival = record { ec = success; bytes = 7 ∷ 9 ∷ [] }

abbrev echoed : SerialSession (Unit {0})
echoed = read_completed echo arrival listening

listening_reached : Reach (serial_machine echo) opened listening
listening_reached = next (next here (calls (set_read_handler (some tt)))) (calls start_reading)

echo_reached : Reach (serial_machine echo) opened echoed
unfolding construct serial_state run_call schedule_operations try_read try_write can_start_read
    can_start_write do_read
echo_reached = next listening_reached (read_completes arrival (omega arith) (omega arith))

-- In half-duplex the answer is being written, and the next read waits for it.
echoed_writing :
    (echoed.write_in_progress ≡ true) × (echoed.read_in_progress ≡ false) × (echoed.closed ≡ false)
unfolding construct serial_state run_call schedule_operations try_read try_write can_start_read
    can_start_write do_read read_completed notify_read run_calls enqueue_write do_write
echoed_writing = (refl, refl, refl)

created-SerialInv_example : SerialInv echoed
created-SerialInv_example = created-SerialInv usb modbus echo opened_created echo_reached

-- The same mode and the same room, at another speed, while a read is under way.
abbrev faster : SerialPortConfig
faster = record modbus { baud_rate = 9600 }

abbrev reconfigured : SerialSession (Unit {0})
reconfigured = (apply_config usb faster listening).1

reconfigured_life : SerialLife echo opened reconfigured
unfolding construct serial_state run_call schedule_operations try_read try_write can_start_read
    can_start_write do_read
reconfigured_life =
    SerialLife.applies usb faster (refl, inr refl)
      (SerialLife.next (SerialLife.next SerialLife.here (calls (set_read_handler (some tt))))
        (calls start_reading))

created-SerialSettled_example : SerialSettled reconfigured
created-SerialSettled_example =
    created-SerialSettled echo usb modbus opened_created reconfigured_life

-- The same port, in full-duplex.
abbrev widened : SerialPortConfig
widened = record modbus { duplex_mode = full_duplex }

send-apply_config_example :
    let (ec, t) =
      apply_config usb widened
        (run_call serial_derived run_serial_call (send (5 ∷ [])) listening) in
    (t.closed ≡ false)
    × (t.own.duplex_mode ≡ full_duplex)
    × (t.write_queue ≢ [])
    × (t.write_in_progress ≡ false)
    × (¬ SerialSettled t)
unfolding construct serial_state run_call schedule_operations try_read try_write can_start_read
    can_start_write do_read enqueue_write apply_config set_options
send-apply_config_example =
    send-apply_config (5 ∷ []) listening usb widened
      (created-SerialInv usb modbus echo opened_created listening_reached) refl refl refl refl refl
      refl

serial_read-delivers_example : deliveries echoed.trace ≡ (success, 7 ∷ 9 ∷ []) ∷ []
unfolding construct serial_state run_call schedule_operations try_read try_write can_start_read
    can_start_write do_read
serial_read-delivers_example =
    serial_read-delivers echo arrival listening
      (created-SerialInv usb modbus echo opened_created listening_reached)

send_waits_example :
    run_call serial_derived run_serial_call (send (5 ∷ [])) listening
    ≡ log (accepted (5 ∷ [])) (record listening { write_queue = (5 ∷ []) ∷ [] })
unfolding construct serial_state run_call schedule_operations try_read try_write can_start_read
    can_start_write do_read
send_waits_example =
    send_waits (5 ∷ []) listening
      (created-SerialInv usb modbus echo opened_created listening_reached) refl refl refl

open_port_lem_example :
    let (ec, t) = open_port slow_port modbus (construct {H = Unit {0}} serial_state) in
    (failed ec ≡ true)
    × (t.own.port_open ≡ false)
    × (t.own.duplex_mode ≡ full_duplex)
    × (length t.own.read_buffer ≡ 1024)
unfolding open_port apply_config set_options construct serial_state
open_port_lem_example = open_port_lem {H = Unit {0}} slow_port modbus (construct serial_state) refl
