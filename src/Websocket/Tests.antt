-- ===== src/Websocket/Tests.antt =====
-- The theorems on the two WebSocket sessions at a network and a connection that work.
use transit_session.Base.{◌≡◌, refl, ◌⊎◌, true, false, none, some, List, [], ◌∷◌, arith}
use transit_session.Errors.{ErrorCode, success, system, failed}
use transit_session.Core.{
  close, Call, send, start_reading, set_read_handler, construct, run_call, schedule_operations,
  try_write, try_read, close_session,
}
use transit_session.Core.Machine.{Reach, here, next, calls, read_completes}
use transit_session.Core.Arrival.{Arrival}
use transit_session.Websocket.{
  suggested_client, no_timeout, Bytes, Stream, WebSocketConfig, default_web_socket_config,
  default_web_socket_server_config,
}
use transit_session.Websocket.Client.{
  WebSocketSession, client_state, client_derived, no_own, client_machine,
}
use transit_session.Websocket.Client
use transit_session.Websocket.Client.Open.{
  Network, open_stream, open_stream_lem, open_client_session, created_client-Settled,
}
use transit_session.Websocket.Client.Open
use transit_session.Websocket.ServerSession.{
  WebSocketServerSession, ServerCall, server_derived, run_server_call, server_machine,
  set_close_handler,
}
use transit_session.Websocket.ServerSession
use transit_session.Websocket.ServerSession.Safety.{ServerInv}
use transit_session.Websocket.Agreement.{
  as_server, SessionStep, run_client, run_server, run_server-run_client,
}
use transit_session.Websocket.ServerSession.Start.{
  start, accept_completed, accepted_session, ready, failed_start, accepted_server-ServerInv,
}

-- A stream as Beast makes it.
abbrev new_stream : Stream
new_stream = record {
  is_open = false;
  binary = false;
  read_message_max = 16777216;
  timeout = no_timeout;
}

abbrev online : Network
online = record {
  resolve_answer = λ _ _. success;
  connect_answer = λ _ _. success;
  left_open = false;
  no_delay_answer = success;
  handshake_answer = λ _ _. success;
}

-- A server that declines the handshake.
abbrev declining : Network
declining = record online { handshake_answer = λ _ _. system 111 }

abbrev plain : WebSocketConfig
plain = record default_web_socket_config { binary_mode = false; max_message_size = 100 }

abbrev connected : Client.WebSocketSession (Unit {0})
connected = construct (record (client_state new_stream) {
  stream = record {
    is_open = true;
    binary = false;
    read_message_max = 100;
    timeout = suggested_client;
  };
  config = plain;
})

abbrev arrival : Arrival
arrival = record { ec = success; bytes = 7 ∷ 9 ∷ [] }

abbrev echo : {X : Type 0} → Unit {0} → ErrorCode → Bytes → List (Call Bytes (Unit {0}) X)
echo h ec bytes = send bytes ∷ []

abbrev client_listening : Client.WebSocketSession (Unit {0})
client_listening =
    run_call client_derived no_own start_reading
      (run_call client_derived no_own (set_read_handler (some tt)) connected)

abbrev client_echoed : Client.WebSocketSession (Unit {0})
client_echoed = Client.read_completed echo arrival client_listening

client_listens : Reach (client_machine echo) connected client_listening
client_listens = next (next here (calls (set_read_handler (some tt)))) (calls start_reading)

client_echoes : Reach (client_machine echo) connected client_echoed
unfolding construct client_state run_call schedule_operations try_read try_write
    Client.can_start_read Client.can_start_write Client.do_read
client_echoes = next client_listens (read_completes arrival (omega arith) (omega arith))

-- No endpoint accepts the connection, and the socket that was opened for it stays open.
abbrev unreachable : Network
unreachable = record online { connect_answer = λ _ _. system 111; left_open = true }

open_stream_lem_example :
    let (ec, e) = open_stream unreachable plain (client_state new_stream) in
    (e.read_buffer ≡ [])
    × (e.stream.is_open ≡ true)
    × (e.config ≡ default_web_socket_config)
    × ((failed ec ≡ true)
        ⊎ ((e.stream.binary ≡ false)
            × (e.stream.read_message_max ≡ 100)
            × (e.stream.timeout ≡ suggested_client)))
unfolding open_stream client_state
open_stream_lem_example = open_stream_lem unreachable plain (client_state new_stream) refl

-- The session is closed, and a later `open` leaves the socket open.
abbrev hung_up : WebSocketSession (Unit {0})
hung_up = run_call client_derived no_own close client_echoed

abbrev dialled : WebSocketSession (Unit {0})
dialled = (open_client_session unreachable plain hung_up).1

abbrev accepted_stream : Stream
accepted_stream = record {
  is_open = true;
  binary = false;
  read_message_max = 16777216;
  timeout = no_timeout;
}

-- The session when its start handler is called.
abbrev served : WebSocketServerSession (Unit {0})
served = ready accepted_stream default_web_socket_server_config true success success

abbrev server_listening : WebSocketServerSession (Unit {0})
server_listening =
    run_call server_derived run_server_call start_reading
      (run_call server_derived run_server_call (set_read_handler (some tt)) served)

abbrev server_echoed : WebSocketServerSession (Unit {0})
server_echoed = ServerSession.read_completed echo arrival server_listening

served_begun :
    (accepted_session {H = Unit {0}} accepted_stream default_web_socket_server_config true success
      success).1
    ≡ none
unfolding start ServerSession.create run_server_call construct
served_begun = refl

server_listens : Reach (server_machine echo) served server_listening
server_listens = next (next here (calls (set_read_handler (some tt)))) (calls start_reading)

server_echoes : Reach (server_machine echo) served server_echoed
unfolding start accept_completed ServerSession.create run_server_call construct run_call
    schedule_operations try_read try_write ServerSession.can_start_read
    ServerSession.can_start_write ServerSession.do_read
server_echoes = next server_listens (read_completes arrival (omega arith) (omega arith))

accepted_server-ServerInv_example : ServerInv server_echoed
accepted_server-ServerInv_example =
    accepted_server-ServerInv accepted_stream default_web_socket_server_config true success success
      refl served_begun refl echo server_echoes

-- The connection with a close handler, whose handshake fails.
abbrev started : WebSocketServerSession (Unit {0})
started = (accepted_session accepted_stream default_web_socket_server_config true success success).0

failed_start_example :
    let t = accept_completed (system 104) started in
    let u = close_session ServerSession.close_transport t in
    (t.own.stream.is_open ≡ false)
    × (t.own.close_calls ≡ 1)
    × (t.closed ≡ false)
    × (u.closed ≡ true)
    × (u.own.close_calls ≡ t.own.close_calls)
unfolding start ServerSession.create run_server_call construct
failed_start_example = failed_start (system 104) started refl refl refl

-- A message that is echoed, and the end of the connection.
abbrev exchange : List (SessionStep {H = Unit {0}} default_web_socket_server_config echo)
exchange =
    SessionStep.calls (set_read_handler (some tt))
    ∷ SessionStep.calls start_reading
    ∷ SessionStep.reads arrival
    ∷ SessionStep.writes success
    ∷ SessionStep.reads (record { ec = system 104; bytes = [] })
    ∷ []

run_server-run_client_example :
    run_server default_web_socket_server_config echo exchange
      (as_server default_web_socket_server_config connected)
    ≡ as_server default_web_socket_server_config
        (run_client default_web_socket_server_config echo exchange connected)
run_server-run_client_example =
    run_server-run_client default_web_socket_server_config echo exchange connected
