-- ===== src/Websocket/Client.antt =====
-- transport/websocket/websocket_session.hpp: the client session.
use transit_session.Base.{
  ◌≤◌, Bool, true, false, not, ◌&&◌, none, some, List, [], ◌++◌, if◌then◌else◌, length, drop,
}
use transit_session.Errors.{ErrorCode, success, failed}
use transit_session.Core.{
  read_started, read_finished, write_started, write_finished, transport_closed, Session, Derived,
  Call, log, has_pending_writes, current_write, consume_write, mark_read_started,
  mark_read_finished, mark_write_started, mark_write_finished, close_session, schedule_operations,
  notify_read,
}
use transit_session.Core.Arrival.{Arrival}
use transit_session.Core.Machine.{Machine}
use transit_session.Websocket.{
  Bytes, Stream, WebSocketConfig, default_web_socket_config, message_of,
}
pub mod Safety
pub mod Progress
pub mod Open
pub mod Reopened

-- The members of `WebSocketSession`.
pub record ClientState : Type 0 where
  pub stream : Stream
  pub config : WebSocketConfig
  pub read_buffer : Bytes

abbrev pub WebSocketSession : Type 0 → Type 0
WebSocketSession H = Session Bytes Bytes H ClientState

-- The stream as Beast makes it is the parameter.
unfoldable pub client_state : Stream → ClientState
client_state stream = record {
  stream = stream;
  config = default_web_socket_config;
  read_buffer = [];
}

module _ {H : Type 0} where
  unfoldable pub can_start_read : WebSocketSession H → Bool
  can_start_read s = s.read_enabled && (not s.read_in_progress && not s.closed)

  unfoldable pub can_start_write : WebSocketSession H → Bool
  can_start_write s = not s.write_in_progress && (has_pending_writes s && not s.closed)

  unfoldable pub do_read : WebSocketSession H → WebSocketSession H
  do_read s =
      log read_started (record (mark_read_started s) { own = record (s.own) { read_buffer = [] } })

  unfoldable pub do_write : WebSocketSession H → WebSocketSession H
  do_write s = elim (current_write s) [
    | none ↦ s
    | some buffer ↦
        let stream = record (s.own.stream) { binary = s.own.config.binary_mode } in
        log (write_started buffer)
          (record (mark_write_started s) { own = record (s.own) { stream = stream } })
  ]

  unfoldable pub close_transport : WebSocketSession H → WebSocketSession H
  close_transport s =
      let stream = record (s.own.stream) { is_open = false } in
      log transport_closed (record s { own = record (s.own) { stream = stream } })

  abbrev pub client_derived : Derived Bytes Bytes H ClientState
  client_derived = record {
    can_start_read = can_start_read;
    can_start_write = can_start_write;
    do_read = do_read;
    do_write = do_write;
    close_transport = close_transport;
  }

  -- `WebSocketSession` adds no call that runs on the strand.
  abbrev pub no_own : ⊥ → WebSocketSession H → WebSocketSession H
  no_own x s = s

  unfoldable pub write_completed : ErrorCode → WebSocketSession H → WebSocketSession H
  write_completed ec s =
      let ended = log (write_finished ec) (mark_write_finished s) in
      if failed ec
      then close_session close_transport ended
      else schedule_operations client_derived (consume_write ended)

  module _ (react : H → ErrorCode → Bytes → List (Call Bytes H ⊥)) where
    unfoldable pub read_completed : Arrival → WebSocketSession H → WebSocketSession H
    read_completed a s =
        let buffer = s.own.read_buffer ++ a.bytes in
        let n = length a.bytes in
        let ended = log (read_finished a.ec) (mark_read_finished s) in
        if failed a.ec
        then close_session close_transport (
            notify_read client_derived no_own react a.ec []
              (record ended { own = record (s.own) { read_buffer = buffer } }))
        else schedule_operations client_derived (
            notify_read client_derived no_own react success (message_of n buffer)
              (record ended { own = record (s.own) { read_buffer = drop n buffer } }))

    -- Beast reports a message that is longer than the limit as an error.
    abbrev pub client_machine : Machine Bytes Bytes H ⊥ ClientState Arrival
    client_machine = record {
      derived = client_derived;
      run_own = no_own;
      read_completed = read_completed;
      write_completed = write_completed;
      Arrives = λ a s. length a.bytes ≤ s.own.stream.read_message_max;
    }
