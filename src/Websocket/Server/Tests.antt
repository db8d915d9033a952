-- ===== src/Websocket/Server/Tests.antt =====
-- The theorems on the listener at a connection that comes in, is served and is closed.
use transit_session.Base.{◌≡◌, refl, true, false, some, List, [], arith}
use transit_session.Errors.{ErrorCode, success, system}
use transit_session.Core.{Call, close, close_session, construct, run_call}
use transit_session.Core.Machine.{calls}
use transit_session.Websocket.{no_timeout, Bytes, Stream, default_web_socket_server_config}
use transit_session.Websocket.ServerSession.{
  WebSocketServerSession, close_transport, run_server_call, server_derived,
}
use transit_session.Websocket.ServerSession
use transit_session.Websocket.Server.{
  Acceptor, WebSocketServer, new_server, open_server, create, set_session_handler, start, stop,
  put_session, session_started, admit, accept_completed, handshake_completed,
}
use transit_session.Websocket.Server.Sessions.{no_own}
use transit_session.Websocket.Server.System.{
  SystemReach, here, next, sets, starts, accepts, handshakes, runs,
}
use transit_session.Websocket.Server.Stopping.{SystemInv, stop_erases}
use transit_session.Websocket.Server.Life.{created_server-SystemInv}
use transit_session.Websocket.Server.Restart.{late_handshake}

abbrev free_port : Acceptor
free_port = record {
  address_answer = λ _. success;
  open_answer = success;
  reuse_answer = success;
  bind_answer = λ _ _. success;
  listen_answer = λ _. success;
}

-- The port is taken.
abbrev taken_port : Acceptor
taken_port = record free_port { bind_answer = λ _ _. system 98 }

abbrev connected : Stream
connected = record {
  is_open = true;
  binary = false;
  read_message_max = 16777216;
  timeout = no_timeout;
}

abbrev initial : WebSocketServer (Unit {0})
initial = new_server connected default_web_socket_server_config

abbrev listening : WebSocketServer (Unit {0})
listening = record initial { acceptor_open = true }

listening_created : (create free_port connected default_web_socket_server_config).0 ≡ some listening
unfolding create open_server
listening_created = refl

abbrev silent : Unit {0} → ErrorCode → Bytes → List (Call Bytes (Unit {0}) ⊥)
silent h ec bytes = []

abbrev waiting : WebSocketServer (Unit {0})
waiting = start (set_session_handler true listening)

abbrev greeting : WebSocketServer (Unit {0})
greeting = accept_completed success connected success waiting

abbrev serving : WebSocketServer (Unit {0})
serving = handshake_completed 0 success greeting

abbrev hung_up : WebSocketServer (Unit {0})
hung_up = put_session 0 (run_call server_derived no_own close (serving.session 0)) serving

greeting_reached : SystemReach silent listening greeting
unfolding new_server start
greeting_reached =
    next (next (next here (sets true)) starts)
      (accepts success connected success (omega arith) refl (λ f. cc))

serving_reached : SystemReach silent listening serving
unfolding new_server start accept_completed admit ServerSession.create run_server_call construct
    ServerSession.Start.start
serving_reached = next greeting_reached (handshakes 0 success refl)

hung_up_reached : SystemReach silent listening hung_up
unfolding new_server start accept_completed admit ServerSession.create run_server_call construct
    ServerSession.Start.start handshake_completed session_started
hung_up_reached = next serving_reached (runs 0 refl (calls close))

-- The close handler has taken the connection out of the set.
hung_up_active : (serving.active 0 ≡ true) × (hung_up.active 0 ≡ false)
unfolding new_server start accept_completed admit ServerSession.create run_server_call construct
    ServerSession.Start.start handshake_completed session_started close_session close_transport
    run_call ServerSession.Start.accept_completed
hung_up_active = (refl, refl)

created_server-SystemInv_example : SystemInv hung_up
created_server-SystemInv_example =
    created_server-SystemInv silent free_port connected default_web_socket_server_config
      listening_created hung_up_reached

stop_erases_example : (stop serving).erased_in_loop ≡ true
unfolding new_server start accept_completed admit ServerSession.create run_server_call construct
    ServerSession.Start.start handshake_completed session_started
stop_erases_example =
    stop_erases serving
      (created_server-SystemInv silent free_port connected default_web_socket_server_config
        listening_created serving_reached)
      0 refl

late_handshake_example :
    let t = handshake_completed 0 success (stop greeting) in
    (t.active 0 ≡ true) × ((t.session 0).closed ≡ false) × (t.started ≡ false)
unfolding new_server start accept_completed admit ServerSession.create run_server_call construct
    ServerSession.Start.start
late_handshake_example =
    late_handshake greeting 0
      (created_server-SystemInv silent free_port connected default_web_socket_server_config
        listening_created greeting_reached)
      refl

-- Started again after `stop`: the accepts on the closed acceptor fail.
abbrev watching : WebSocketServer (Unit {0})
watching = set_session_handler true listening
