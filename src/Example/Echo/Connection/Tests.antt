-- ===== src/Example/Echo/Connection/Tests.antt =====
-- A message on its way to the echo server and back.
use transit_session.Base.{◌≡◌, refl, true, false, none, some, List, [], ◌∷◌, arith}
use transit_session.Errors.{ErrorCode, success}
use transit_session.Core.{
  Call, set_read_handler, start_reading, send, construct, run_call, run_calls, schedule_operations,
  try_read, try_write, enqueue_write, notify_read,
}
use transit_session.Core.Trace.{messages}
use transit_session.Core.Arrival.{Arrival}
use transit_session.Core.Growth.{Extends}
use transit_session.Websocket.{
  suggested_client, no_timeout, Bytes, Stream, default_web_socket_config,
  default_web_socket_server_config,
}
use transit_session.Websocket.Client
use transit_session.Websocket.Client.{WebSocketSession, client_state, client_derived, no_own}
use transit_session.Websocket.Client.Open
use transit_session.Websocket.Client.Open.{Network, open_stream}
use transit_session.Websocket.ServerSession
use transit_session.Websocket.ServerSession.{run_server_call}
use transit_session.Websocket.ServerSession.Start.{start, accept_completed, accepted_session}
use transit_session.Example.Echo.{EchoHandler, echo_react}
use transit_session.Example.Echo.Connection.{Connection, ConnectionStep, ConnectionReach}
use transit_session.Example.Echo.Connection.EndToEnd.{
  connected, IsIdle, echoed_in_order, echoed_completely,
}

abbrev closed_stream : Stream
closed_stream = record {
  is_open = false;
  binary = false;
  read_message_max = 16777216;
  timeout = no_timeout;
}

abbrev open_stream_of_server : Stream
open_stream_of_server = record closed_stream { is_open = true }

abbrev reachable : Network
reachable = record {
  resolve_answer = λ _ _. success;
  connect_answer = λ _ _. success;
  left_open = false;
  no_delay_answer = success;
  handshake_answer = λ _ _. success;
}

-- The client's handler keeps still.
abbrev silent : Unit {0} → ErrorCode → Bytes → List (Call Bytes (Unit {0}) ⊥)
silent h ec bytes = []

abbrev new_client : WebSocketSession (Unit {0})
new_client = construct (record (client_state closed_stream) {
  stream = record {
    is_open = true;
    binary = true;
    read_message_max = 1048576;
    timeout = suggested_client;
  };
})

created : (Client.Open.create reachable default_web_socket_config closed_stream).0 ≡ some new_client
unfolding Client.Open.create open_stream client_state
created = refl

begun :
    (accepted_session {H = EchoHandler} open_stream_of_server default_web_socket_server_config true
      success success).1
    ≡ none
unfolding start ServerSession.create run_server_call construct
begun = refl

abbrev line : Connection (Unit {0})
line =
    connected open_stream_of_server default_web_socket_server_config true success success new_client

abbrev call : Call Bytes (Unit {0}) ⊥ → Connection (Unit {0}) → Connection (Unit {0})
call x c = record c { client = run_call client_derived no_own x c.client }

abbrev two_bytes : Arrival
two_bytes = record { ec = success; bytes = 7 ∷ 9 ∷ [] }

abbrev sent : Connection (Unit {0})
sent = call (send (7 ∷ 9 ∷ [])) (call start_reading (call (set_read_handler (some tt)) line))

abbrev arrived : Connection (Unit {0})
arrived = record sent {
  server = ServerSession.read_completed echo_react two_bytes sent.server;
  to_server = two_bytes.bytes ∷ [];
}

abbrev written : Connection (Unit {0})
written = record arrived {
  client = Client.write_completed success arrived.client;
  server = ServerSession.write_completed success arrived.server;
}

abbrev returned : Connection (Unit {0})
returned = record written {
  client = Client.read_completed silent two_bytes written.client;
  to_client = two_bytes.bytes ∷ [];
}

sent_reached : ConnectionReach silent line sent
sent_reached =
    ConnectionReach.next
      (ConnectionReach.next
        (ConnectionReach.next ConnectionReach.here
          (ConnectionStep.client_calls (set_read_handler (some tt))))
        (ConnectionStep.client_calls start_reading))
      (ConnectionStep.client_calls (send (7 ∷ 9 ∷ [])))

arrived_reached : ConnectionReach silent line arrived
unfolding client_state start accept_completed ServerSession.create run_server_call construct
    run_call run_calls schedule_operations try_read try_write Client.can_start_read
    Client.can_start_write Client.do_read Client.do_write ServerSession.can_start_read
    ServerSession.can_start_write ServerSession.do_read enqueue_write
arrived_reached =
    ConnectionReach.next sent_reached
      (ConnectionStep.server_receives two_bytes (omega arith) (omega arith) refl ([], refl))

written_reached : ConnectionReach silent line written
unfolding client_state start accept_completed ServerSession.create run_server_call construct
    run_call run_calls schedule_operations try_read try_write Client.can_start_read
    Client.can_start_write Client.do_read Client.do_write ServerSession.can_start_read
    ServerSession.can_start_write ServerSession.do_read ServerSession.do_write
    ServerSession.read_completed enqueue_write notify_read
written_reached =
    ConnectionReach.next
      (ConnectionReach.next arrived_reached (ConnectionStep.client_writes success (omega arith)))
      (ConnectionStep.server_writes success (omega arith))

returned_reached : ConnectionReach silent line returned
unfolding client_state start accept_completed ServerSession.create run_server_call construct
    run_call run_calls schedule_operations try_read try_write Client.can_start_read
    Client.can_start_write Client.do_read Client.do_write Client.write_completed
    ServerSession.can_start_read ServerSession.can_start_write ServerSession.do_read
    ServerSession.do_write ServerSession.read_completed ServerSession.write_completed enqueue_write
    notify_read
returned_reached =
    ConnectionReach.next written_reached
      (ConnectionStep.client_receives two_bytes (omega arith) (omega arith) refl ([], refl))

returned-IsIdle : IsIdle returned
unfolding client_state start accept_completed ServerSession.create run_server_call construct
    run_call run_calls schedule_operations try_read try_write Client.can_start_read
    Client.can_start_write Client.do_read Client.do_write Client.write_completed
    Client.read_completed ServerSession.can_start_read ServerSession.can_start_write
    ServerSession.do_read ServerSession.do_write ServerSession.read_completed
    ServerSession.write_completed enqueue_write notify_read
returned-IsIdle = record {
  client_open = refl;
  server_open = refl;
  client_written = refl;
  server_written = refl;
  arrived = refl;
  returned = refl;
}

echoed_in_order_example : Extends returned.to_client (messages returned.client.trace)
echoed_in_order_example =
    echoed_in_order open_stream_of_server default_web_socket_server_config true success success refl
      begun refl reachable default_web_socket_config closed_stream silent created returned_reached

echoed_completely_example : returned.to_client ≡ messages returned.client.trace
echoed_completely_example =
    echoed_completely open_stream_of_server default_web_socket_server_config true success success
      refl begun refl reachable default_web_socket_config closed_stream silent created
      returned_reached returned-IsIdle
