-- ===== src/Example/Programs/Greeting/Tests.antt =====
-- The greeting on its way to the echo server and back.
use Prim.Native.String.{String}
use transit_session.Base.{◌≡◌, refl, true, false, none, some, [], ◌∷◌, arith}
use transit_session.Errors.{success}
use transit_session.Core.{
  close_session, construct, run_call, run_calls, schedule_operations, try_read, try_write,
  enqueue_write, notify_read,
}
use transit_session.Core.Trace.{deliveries}
use transit_session.Core.Arrival.{Arrival}
use transit_session.Core.Growth.{Extends}
use transit_session.Websocket.{
  suggested_client, no_timeout, Bytes, Stream, default_web_socket_server_config,
}
use transit_session.Websocket.Client
use transit_session.Websocket.Client.{WebSocketSession, client_state}
use transit_session.Websocket.Client.Open
use transit_session.Websocket.Client.Open.{Network, open_stream}
use transit_session.Websocket.ServerSession
use transit_session.Websocket.ServerSession.{run_server_call}
use transit_session.Websocket.ServerSession.Start.{start, accept_completed, accepted_session}
use transit_session.Example.Echo.{EchoHandler, echo_react, received}
use transit_session.Example.Echo.Connection.{Connection, ConnectionStep}
use transit_session.Example.Echo.Connection.EndToEnd.{IsIdle}
use transit_session.Example.Options.Programs.{SessionOptions, parse_session_options, session_round}
use transit_session.Example.Programs.{running, ReadHandler}
use transit_session.Example.Programs.Greeting.{
  session_config, begin_websocket_session, greeting_react, greet, GreetingReach,
}
use transit_session.Example.Programs.Greeting.Printed.{line, greeting_lem}

abbrev unopened : Stream
unopened = record {
  is_open = false;
  binary = false;
  read_message_max = 16777216;
  timeout = no_timeout;
}

abbrev accepted_stream : Stream
accepted_stream = record unopened { is_open = true }

abbrev local : Network
local = record {
  resolve_answer = λ _ _. success;
  connect_answer = λ _ _. success;
  left_open = false;
  no_delay_answer = success;
  handshake_answer = λ _ _. success;
}

-- Every text has the same two characters.
abbrev bytes_of : String → Bytes
bytes_of text = 104 ∷ 105 ∷ []

abbrev program : WebSocketSession ReadHandler
program = greet (104 ∷ 105 ∷ []) (
    construct (record (client_state unopened) {
      stream = record {
        is_open = true;
        binary = false;
        read_message_max = 1048576;
        timeout = suggested_client;
      };
      config =
          session_config
            (record { host = "127.0.0.1"; port = "9002"; target = "/"; message = "hi" });
    }))

begins : begin_websocket_session bytes_of local unopened ("--message" ∷ "hi" ∷ []) ≡ running program
unfolding begin_websocket_session parse_session_options session_round session_config
    Client.Open.create open_stream client_state
begins = refl

begun :
    (accepted_session {H = EchoHandler} accepted_stream default_web_socket_server_config true
      success success).1
    ≡ none
unfolding start ServerSession.create run_server_call construct
begun = refl

abbrev before : Connection ReadHandler
before = line accepted_stream default_web_socket_server_config true success success program

abbrev greeting : Arrival
greeting = record { ec = success; bytes = 104 ∷ 105 ∷ [] }

abbrev arrived : Connection ReadHandler
arrived = record before {
  server = ServerSession.read_completed echo_react greeting before.server;
  to_server = greeting.bytes ∷ [];
}

abbrev returned : Connection ReadHandler
returned = record arrived {
  client = Client.read_completed greeting_react greeting arrived.client;
  to_client = greeting.bytes ∷ [];
}

arrived_reached : GreetingReach before arrived
unfolding client_state start accept_completed ServerSession.create run_server_call construct
    run_call run_calls schedule_operations try_read try_write Client.can_start_read
    Client.can_start_write Client.do_read Client.do_write ServerSession.can_start_read
    ServerSession.can_start_write ServerSession.do_read enqueue_write session_config
arrived_reached =
    GreetingReach.next GreetingReach.here refl
      (ConnectionStep.server_receives greeting (omega arith) (omega arith) refl ([], refl)) tt

returned_reached : GreetingReach before returned
unfolding client_state start accept_completed ServerSession.create run_server_call construct
    run_call run_calls schedule_operations try_read try_write Client.can_start_read
    Client.can_start_write Client.do_read Client.do_write ServerSession.can_start_read
    ServerSession.can_start_write ServerSession.do_read ServerSession.do_write
    ServerSession.read_completed enqueue_write notify_read session_config
returned_reached =
    GreetingReach.next arrived_reached refl
      (ConnectionStep.client_receives greeting (omega arith) (omega arith) refl ([], refl)) tt

greeting_lem_example :
    ((o : SessionOptions) × (parse_session_options ("--message" ∷ "hi" ∷ []) ≡ some o)
      × Extends (received returned.client.trace) (bytes_of o.message ∷ []))
    × ¬ ((deliveries returned.client.trace ≡ []) × IsIdle returned)
greeting_lem_example =
    greeting_lem accepted_stream default_web_socket_server_config true success success refl begun
      refl bytes_of local unopened ("--message" ∷ "hi" ∷ []) begins returned_reached

-- It is printed.
printed : received returned.client.trace ≡ (104 ∷ 105 ∷ []) ∷ []
unfolding client_state start accept_completed ServerSession.create run_server_call construct
    run_call run_calls schedule_operations try_read try_write Client.can_start_read
    Client.can_start_write Client.do_read Client.do_write Client.read_completed enqueue_write
    notify_read session_config close_session Client.close_transport
printed = refl
