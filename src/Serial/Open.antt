-- ===== src/Serial/Open.antt =====
-- transport/serial/serial_session.hpp: `create`, `open` and `apply_config`. The answers of the
-- serial port, which Boost.Asio gives, are a parameter.
use Prim.Native.String.{String}
use transit_session.Base.{
  if_cases, ◌⊎◌, ℕ, ◌≡◌, refl, inl, inr, Bool, true, false, not, ◌||◌, Option, none, some, List, [],
  ◌∷◌, arith, if◌then◌else◌, ◌==◌, length,
}
use transit_session.Errors.{ErrorCode, success, invalid_argument, failed}
use transit_session.Core.{construct, log, duplex_changed}
use transit_session.Core.Ended.{duplex-Inv}
use transit_session.Serial.{Parity, StopBits, FlowControl, is_half, SerialPortConfig, serial_state}
use transit_session.Serial.Session.{SerialSession, resize}
use transit_session.Serial.Invariant.{SerialInv}
use transit_session.Serial.Safety.{length-resize}

pub data PortOption : Type 0 where
  baud_rate character_size : ℕ → PortOption
  parity : Parity → PortOption
  stop_bits : StopBits → PortOption
  flow_control : FlowControl → PortOption

-- What `open` and `set_option` of the port report.
pub record Port : Type 0 where
  pub open_answer : String → ErrorCode
  pub option_answer : PortOption → ErrorCode

-- `set_option` in turn, up to the first error.
unfoldable pub set_options : Port → List PortOption → ErrorCode
set_options port [] = success
set_options port (o ∷ os) =
    let rest = set_options port os in
    let ec = port.option_answer o in if failed ec then ec else rest

abbrev pub port_options : SerialPortConfig → List PortOption
port_options config =
    baud_rate config.baud_rate
    ∷ character_size config.character_size
    ∷ parity config.parity
    ∷ stop_bits config.stop_bits
    ∷ flow_control config.flow_control
    ∷ []

-- Whether the port refuses one of the five settings of a configuration.
abbrev refuses : Port → SerialPortConfig → Bool
refuses port config =
    failed (port.option_answer (baud_rate config.baud_rate))
    || failed (port.option_answer (character_size config.character_size))
    || failed (port.option_answer (parity config.parity))
    || failed (port.option_answer (stop_bits config.stop_bits))
    || failed (port.option_answer (flow_control config.flow_control))

module _ {H : Type 0} (port : Port) (config : SerialPortConfig) where
  -- The assignments at the end of `apply_config`.
  abbrev pub configured : SerialSession H → SerialSession H
  configured s = log (duplex_changed (is_half config.duplex_mode)) (record s {
    own = record (s.own) {
      duplex_mode = config.duplex_mode;
      read_buffer = resize config.read_buffer_size s.own.read_buffer;
    };
  })

  unfoldable pub apply_config : SerialSession H → ErrorCode × SerialSession H
  apply_config s =
      let ec = set_options port (port_options config) in
      if failed ec
      then (ec, s)
      else (if config.read_buffer_size == 0 then (invalid_argument, s) else (success, configured s))

  unfoldable pub open_port : SerialSession H → ErrorCode × SerialSession H
  open_port s =
      let ec = port.open_answer config.device_path in
      if failed ec
      then (ec, s)
      else (let (ec', t) = apply_config (record s { own = record (s.own) { port_open = true } }) in
          (ec', if failed ec' then record t { own = record (t.own) { port_open = false } } else t))

  -- The pointer that is returned, and the code.
  unfoldable pub create : Option (SerialSession H) × ErrorCode
  create =
      let (ec, s) = open_port (construct serial_state) in (if failed ec then none else some s, ec)

  -- Either an error is reported and nothing is assigned, or all is.
  pub apply_config_cases :
      (s : SerialSession H)
      → ((ec : ErrorCode) × (failed ec ≡ true) × (apply_config s ≡ (ec, s)))
        ⊎ (((config.read_buffer_size == 0) ≡ false) × (apply_config s ≡ (success, configured s)))
  unfolding apply_config
  apply_config_cases s =
      if_cases Cases (failed answer) (λ e. inl (answer, e, refl))
        (λ _.
          if_cases Cases (config.read_buffer_size == 0) (λ _. inl (invalid_argument, refl, refl))
            (λ e. inr (e, refl)))
    where
      answer : ErrorCode
      answer = set_options port (port_options config)

      Cases : ErrorCode × SerialSession H → Type 0
      Cases r =
          ((ec : ErrorCode) × (failed ec ≡ true) × (r ≡ (ec, s)))
          ⊎ (((config.read_buffer_size == 0) ≡ false) × (r ≡ (success, configured s)))

  apply_config-fails :
      (s : SerialSession H)
      → failed (apply_config s).0 ≡ (refuses port config || (config.read_buffer_size == 0))
  unfolding apply_config set_options
  apply_config-fails s = ground arith

  -- `open` of a port that was closed, whatever the port answers, reports an error exactly when the
  -- port cannot be opened, refuses the baud rate, the character size, the parity, the stop bits or
  -- the flow control of the configuration, or the configured buffer has no room. The port is open
  -- afterwards exactly when no error is reported; the mode and the size of the buffer are then
  -- those of the configuration, and are otherwise as they were.
  pub open_port_lem :
      (s : SerialSession H)
      → s.own.port_open ≡ false
      → let (ec, t) = open_port s in
        (failed ec ≡ (
          failed (port.open_answer config.device_path)
          || failed (port.option_answer (baud_rate config.baud_rate))
          || failed (port.option_answer (character_size config.character_size))
          || failed (port.option_answer (parity config.parity))
          || failed (port.option_answer (stop_bits config.stop_bits))
          || failed (port.option_answer (flow_control config.flow_control))
          || (config.read_buffer_size == 0)))
        × (t.own.port_open ≡ not (failed ec))
        × (t.own.duplex_mode ≡ (if failed ec then s.own.duplex_mode else config.duplex_mode))
        × (length t.own.read_buffer
            ≡ (if failed ec then length s.own.read_buffer else config.read_buffer_size))
  unfolding open_port
  open_port_lem s h =
      let t = record s { own = record (s.own) { port_open = true } } in
      ground (
        arith,
        apply_config_cases t,
        apply_config-fails t,
        length-resize config.read_buffer_size s.own.read_buffer,
      )

  pub configured-SerialInv :
      (s : SerialSession H)
      → SerialInv s
      → (config.read_buffer_size == 0) ≡ false
      → SerialInv (configured s)
  configured-SerialInv s v h = record {
    base = duplex-Inv s v.base (is_half config.duplex_mode) _;
    mode = refl;
    exclusive = v.exclusive;
    unpaused = v.unpaused;
    room = ground (arith, length-resize config.read_buffer_size s.own.read_buffer);
  }
