-- ===== src/Websocket/ServerSession.antt =====
-- transport/websocket/websocket_server_session.hpp: the session of an accepted connection.
use transit_session.Base.{
  ℕ, ◌+◌, ◌≤◌, Bool, true, false, not, ◌&&◌, none, some, List, [], ◌++◌, if◌then◌else◌, length,
  drop,
}
use transit_session.Errors.{ErrorCode, success, failed}
use transit_session.Core.{
  construct, read_started, read_finished, write_started, write_finished, transport_closed, Session,
  Derived, Call, log, has_pending_writes, current_write, consume_write, mark_read_started,
  mark_read_finished, mark_write_started, mark_write_finished, close_session, schedule_operations,
  notify_read,
}
use transit_session.Core.Arrival.{Arrival}
use transit_session.Core.Machine.{Machine}
use transit_session.Websocket.{Bytes, Stream, WebSocketServerConfig, message_of}
pub mod Safety
pub mod Progress
pub mod Start

-- The members of `WebSocketServerSession`. `close_handler_set` says whether a close handler is set;
-- ghost: `close_calls` is the number of times that it was called.
pub record ServerState : Type 0 where
  pub stream : Stream
  pub config : WebSocketServerConfig
  pub read_buffer : Bytes
  pub close_handler_set : Bool
  pub close_notified : Bool
  pub close_calls : ℕ

abbrev pub WebSocketServerSession : Type 0 → Type 0
WebSocketServerSession H = Session Bytes Bytes H ServerState

abbrev pub server_state : Stream → WebSocketServerConfig → ServerState
server_state stream config = record {
  stream = stream;
  config = config;
  read_buffer = [];
  close_handler_set = false;
  close_notified = false;
  close_calls = 0;
}

-- `create`, over the accepted socket.
unfoldable pub create : {H : Type 0} → Stream → WebSocketServerConfig → WebSocketServerSession H
create stream config = construct (server_state stream config)

-- `set_close_handler`, with a handler or with an empty function.
pub data ServerCall : Type 0 where
  set_close_handler : Bool → ServerCall

-- The state when the stream is closed and the handler, if there is one, was called.
abbrev pub notified_own : ServerState → ServerState
notified_own d = record d {
  close_notified = true;
  stream = record (d.stream) { is_open = false };
  close_calls = if d.close_handler_set then d.close_calls + 1 else d.close_calls;
}

module _ {H : Type 0} where
  unfoldable pub can_start_read : WebSocketServerSession H → Bool
  can_start_read s = s.read_enabled && (not s.read_in_progress && not s.closed)

  unfoldable pub can_start_write : WebSocketServerSession H → Bool
  can_start_write s = not s.write_in_progress && (has_pending_writes s && not s.closed)

  unfoldable pub do_read : WebSocketServerSession H → WebSocketServerSession H
  do_read s =
      log read_started (record (mark_read_started s) { own = record (s.own) { read_buffer = [] } })

  unfoldable pub do_write : WebSocketServerSession H → WebSocketServerSession H
  do_write s = elim (current_write s) [
    | none ↦ s
    | some buffer ↦
        let stream = record (s.own.stream) { binary = s.own.config.binary_mode } in
        log (write_started buffer)
          (record (mark_write_started s) { own = record (s.own) { stream = stream } })
  ]

  unfoldable pub close_transport : WebSocketServerSession H → WebSocketServerSession H
  close_transport s =
      if s.own.close_notified
      then s
      else log transport_closed (record s { own = notified_own s.own })

  abbrev pub server_derived : Derived Bytes Bytes H ServerState
  server_derived = record {
    can_start_read = can_start_read;
    can_start_write = can_start_write;
    do_read = do_read;
    do_write = do_write;
    close_transport = close_transport;
  }

  unfoldable pub run_server_call : ServerCall → WebSocketServerSession H → WebSocketServerSession H
  run_server_call (set_close_handler b) s = record s {
    own = record (s.own) { close_handler_set = b };
  }

  unfoldable pub write_completed : ErrorCode → WebSocketServerSession H → WebSocketServerSession H
  write_completed ec s =
      let ended = log (write_finished ec) (mark_write_finished s) in
      if failed ec
      then close_session close_transport ended
      else schedule_operations server_derived (consume_write ended)

  module _ (react : H → ErrorCode → Bytes → List (Call Bytes H ServerCall)) where
    unfoldable pub read_completed : Arrival → WebSocketServerSession H → WebSocketServerSession H
    read_completed a s =
        let buffer = s.own.read_buffer ++ a.bytes in
        let n = length a.bytes in
        let ended = log (read_finished a.ec) (mark_read_finished s) in
        if failed a.ec
        then close_session close_transport (
            notify_read server_derived run_server_call react a.ec []
              (record ended { own = record (s.own) { read_buffer = buffer } }))
        else schedule_operations server_derived (
            notify_read server_derived run_server_call react success (message_of n buffer)
              (record ended { own = record (s.own) { read_buffer = drop n buffer } }))

    -- Beast reports a message that is longer than the limit as an error.
    abbrev pub server_machine : Machine Bytes Bytes H ServerCall ServerState Arrival
    server_machine = record {
      derived = server_derived;
      run_own = run_server_call;
      read_completed = read_completed;
      write_completed = write_completed;
      Arrives = λ a s. length a.bytes ≤ s.own.stream.read_message_max;
    }
