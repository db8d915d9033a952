-- ===== src/Serial/Session.antt =====
-- transport/serial/serial_session.hpp: the hooks that `SerialSession` gives to the base class, its
-- own calls and its two completion handlers. `react` is the behaviour of the callers' handlers.
use transit_session.Base.{
  ℕ, ◌-◌, ◌≤◌, Bool, true, false, not, ◌&&◌, ◌||◌, none, some, List, [], ◌++◌, if◌then◌else◌, ◌==◌,
  length, take, replicate,
}
use transit_session.Errors.{ErrorCode, success, failed, is_aborted}
use transit_session.Core.{
  read_started, read_finished, write_started, write_finished, transport_closed, transport_cancelled,
  duplex_changed, Session, Derived, Call, log, has_pending_writes, current_write, consume_write,
  mark_read_started, mark_read_finished, mark_write_started, mark_write_finished, close_session,
  schedule_operations, notify_read,
}
use transit_session.Core.Arrival.{Arrival, fill}
use transit_session.Core.Machine.{Machine}
use transit_session.Serial.{DuplexMode, is_half, SerialState}

-- `std::vector<char>`.
abbrev pub Bytes : Type 0
Bytes = List ℕ

abbrev pub SerialSession : Type 0 → Type 0
SerialSession H = Session Bytes Bytes H SerialState

pub data SerialCall : Type 0 where
  set_duplex_mode : DuplexMode → SerialCall
  set_read_buffer_size : ℕ → SerialCall

-- `std::vector::resize`.
abbrev pub resize : ℕ → Bytes → Bytes
resize n buffer = take n buffer ++ replicate (n - length buffer) 0

module _ {H : Type 0} where
  unfoldable pub can_start_read : SerialSession H → Bool
  can_start_read s =
      if not s.read_enabled || (s.read_in_progress || s.closed)
      then false
      else (if is_half s.own.duplex_mode
          then not s.write_in_progress && not (has_pending_writes s)
          else true)

  unfoldable pub can_start_write : SerialSession H → Bool
  can_start_write s =
      if s.write_in_progress || (not (has_pending_writes s) || s.closed)
      then false
      else (if is_half s.own.duplex_mode
          then not s.read_in_progress && not s.own.read_pause_for_write
          else true)

  unfoldable pub do_read : SerialSession H → SerialSession H
  do_read s =
      log read_started
        (record (mark_read_started s) { own = record (s.own) { read_pause_for_write = false } })

  unfoldable pub do_write : SerialSession H → SerialSession H
  do_write s = elim (current_write s) [
    | none ↦ s
    | some buffer ↦
        if is_half s.own.duplex_mode && s.read_in_progress
        then log transport_cancelled
            (record s { own = record (s.own) { read_pause_for_write = true } })
        else log (write_started buffer) (mark_write_started s)
  ]

  unfoldable pub close_transport : SerialSession H → SerialSession H
  close_transport s = log transport_closed (record s { own = record (s.own) { port_open = false } })

  abbrev pub serial_derived : Derived Bytes Bytes H SerialState
  serial_derived = record {
    can_start_read = can_start_read;
    can_start_write = can_start_write;
    do_read = do_read;
    do_write = do_write;
    close_transport = close_transport;
  }

  unfoldable pub run_serial_call : SerialCall → SerialSession H → SerialSession H
  run_serial_call (set_duplex_mode mode) s = schedule_operations serial_derived (
      log (duplex_changed (is_half mode))
        (record s { own = record (s.own) { duplex_mode = mode } }))
  run_serial_call (set_read_buffer_size n) s =
      if s.read_in_progress || n == 0
      then s
      else record s { own = record (s.own) { read_buffer = resize n s.own.read_buffer } }

  unfoldable pub write_completed : ErrorCode → SerialSession H → SerialSession H
  write_completed ec s =
      let ended = log (write_finished ec) (mark_write_finished s) in
      if failed ec
      then close_session close_transport ended
      else schedule_operations serial_derived (consume_write ended)

  module _ (react : H → ErrorCode → Bytes → List (Call Bytes H SerialCall)) where
    unfoldable pub read_completed : Arrival → SerialSession H → SerialSession H
    read_completed a s =
        let buffer = fill a.bytes s.own.read_buffer in
        let ended =
          log (read_finished a.ec)
            (record (mark_read_finished s) { own = record (s.own) { read_buffer = buffer } }) in
        if s.own.read_pause_for_write && is_aborted a.ec
        then schedule_operations serial_derived ended
        else (if failed a.ec
            then close_session close_transport
                (notify_read serial_derived run_serial_call react a.ec [] ended)
            else schedule_operations serial_derived (
                notify_read serial_derived run_serial_call react success
                  (take (length a.bytes) buffer) ended))

    abbrev pub serial_machine : Machine Bytes Bytes H SerialCall SerialState Arrival
    serial_machine = record {
      derived = serial_derived;
      run_own = run_serial_call;
      read_completed = read_completed;
      write_completed = write_completed;
      Arrives = λ a s. length a.bytes ≤ length s.own.read_buffer;
    }
