-- ===== src/Can/Session.antt =====
-- transport/can/can_session.hpp: the hooks that `CanSession` gives to the base class, and its two
-- completion handlers. `react` is the behaviour of the callers' read handlers.
use transit_session.Base.{
  ℕ, ◌≤◌, Bool, false, not, ◌&&◌, none, some, List, if◌then◌else◌, length, replicate,
}
use transit_session.Errors.{ErrorCode, success, failed}
use transit_session.Core.{
  read_started, read_finished, write_started, write_finished, transport_closed, Session, Derived,
  Call, log, has_pending_writes, current_write, consume_write, mark_read_started,
  mark_read_finished, mark_write_started, mark_write_finished, close_session, schedule_operations,
  notify_read,
}
use transit_session.Core.Machine.{Machine}
use transit_session.Core.Arrival.{Arrival, fill}
use transit_session.Can.{CanConfig, CanFrame, default_can_frame, default_can_config}
use transit_session.Can.Abi.{LinuxCan}
use transit_session.Can.Codec.{encode_frame, decode_frame}

-- The members of `CanSession`; `socket_open` is `socket_.is_open()`.
pub record CanState : Type 0 where
  pub socket_open : Bool
  pub config : CanConfig
  pub read_buffer : List ℕ
  pub last_read_frame : CanFrame

-- `construct` of the base with the members' initial values.
unfoldable pub can_state : LinuxCan → CanState
can_state abi = record {
  socket_open = false;
  config = default_can_config;
  read_buffer = replicate abi.fd_size 0;
  last_read_frame = default_can_frame;
}

abbrev pub CanSession : Type 0 → Type 0
CanSession H = Session CanFrame CanFrame H CanState

module _ {H : Type 0} where
  unfoldable pub can_start_read : CanSession H → Bool
  can_start_read s = s.read_enabled && (not s.read_in_progress && not s.closed)

  unfoldable pub can_start_write : CanSession H → Bool
  can_start_write s = not s.write_in_progress && (has_pending_writes s && not s.closed)

  unfoldable pub do_read : CanSession H → CanSession H
  do_read s = log read_started (mark_read_started s)

  unfoldable pub close_transport : CanSession H → CanSession H
  close_transport s =
      log transport_closed (record s { own = record (s.own) { socket_open = false } })

  module _ (abi : LinuxCan) where
    unfoldable pub do_write : CanSession H → CanSession H
    do_write s = elim (current_write s) [
      | none ↦ s
      | some frame ↦ elim (encode_frame abi s.own.config frame) [
        | none ↦ close_session close_transport s
        | some encoded ↦ log (write_started frame) (mark_write_started s)
      ]
    ]

    abbrev pub can_derived : Derived CanFrame CanFrame H CanState
    can_derived = record {
      can_start_read = can_start_read;
      can_start_write = can_start_write;
      do_read = do_read;
      do_write = do_write;
      close_transport = close_transport;
    }

    -- `CanSession` adds no call that runs on the strand.
    abbrev pub no_own : ⊥ → CanSession H → CanSession H
    no_own x s = s

    unfoldable pub write_completed : ErrorCode → CanSession H → CanSession H
    write_completed ec s =
        let ended = log (write_finished ec) (mark_write_finished s) in
        if failed ec
        then close_session close_transport ended
        else schedule_operations can_derived (consume_write ended)

    module _ (react : H → ErrorCode → CanFrame → List (Call CanFrame H ⊥)) where
      -- `notify_read(ec, {}); close(); return;`.
      unfoldable pub fail_read : ErrorCode → CanSession H → CanSession H
      fail_read ec s =
          close_session close_transport
            (notify_read can_derived no_own react ec default_can_frame s)

      unfoldable pub read_completed : Arrival → CanSession H → CanSession H
      unfolding fail_read
      read_completed a s =
          let buffer = fill a.bytes s.own.read_buffer in
          let ended =
            log (read_finished a.ec)
              (record (mark_read_finished s) { own = record (s.own) { read_buffer = buffer } }) in
          if failed a.ec
          then fail_read a.ec ended
          else (let (frame_ec, last) =
                decode_frame abi (length a.bytes) buffer s.own.last_read_frame in
              let decoded = record ended {
                own = record (s.own) { read_buffer = buffer; last_read_frame = last };
              } in
              if failed frame_ec
              then fail_read frame_ec decoded
              else schedule_operations can_derived
                  (notify_read can_derived no_own react success last decoded))

      abbrev pub can_machine : Machine CanFrame CanFrame H ⊥ CanState Arrival
      can_machine = record {
        derived = can_derived;
        run_own = no_own;
        read_completed = read_completed;
        write_completed = write_completed;
        Arrives = λ a s. length a.bytes ≤ length s.own.read_buffer;
      }
