-- ===== src/Example/Programs/Websocket.antt =====
-- `main` of example/websocket_server.cpp, and what the servers of the programs have in common.
use Prim.Native.String.{String}
use transit_session.Base.{
  ℕ, ◌^◌, ◌<◌, ◌≡◌, refl, sym, ap, true, not, Option, none, some, some-if, List, subst,
  option_cases, if◌then◌else◌,
}
use transit_session.Errors.{ErrorCode, failed}
use transit_session.Websocket.{Stream, WebSocketServerConfig, default_web_socket_server_config}
use transit_session.Websocket.Server.{
  Acceptor, WebSocketServer, new_server, open_server, set_session_handler,
}
use transit_session.Websocket.Server
use transit_session.Websocket.Server.Life.{open_server_lem}
use transit_session.Example.Options.Programs.{
  ServerOptions, parse_server_options, parse_server_options_lem,
}
use transit_session.Example.Echo.{EchoHandler, EchoSession, attach_echo_behavior}
use transit_session.Example.Programs.{Begun, returned, running, created, created-cases}

-- What the session handler does with a session, when it gets one.
unfoldable pub on_session : ErrorCode → Option EchoSession → Option EchoSession
on_session session_ec p =
    if failed session_ec then p else elim p [ none ↦ none | some s ↦ some (attach_echo_behavior s) ]

unfoldable pub server_config : ServerOptions → WebSocketServerConfig
server_config o = record default_web_socket_server_config {
  bind_address = o.bind_address;
  port = o.port;
  binary_mode = o.binary_mode;
}

-- `unused` is the stream of a session that was not accepted.
module _ (acceptor : Acceptor) (unused : Stream) where
  -- `set_session_handler` and `start` of a server that was created.
  abbrev pub listening : WebSocketServer EchoHandler → WebSocketServer EchoHandler
  listening w = Server.start (set_session_handler true w)

  unfoldable pub begin_websocket_server :
      (String → Option ℕ) → List String → Begun (WebSocketServer EchoHandler)
  begin_websocket_server stoul args = elim (parse_server_options stoul args) [
    | none ↦ returned 1
    | some o ↦
        created (Server.create acceptor unused (server_config o)) (λ w. running (listening w))
  ]

  -- The server listens with this configuration, one accept is under way, and none was completed.
  abbrev pub IsListening : WebSocketServerConfig → WebSocketServer EchoHandler → Type 0
  IsListening config w =
      (w.started ≡ true)
      × (w.acceptor_open ≡ true)
      × (w.session_handler_set ≡ true)
      × (w.accepts_pending ≡ 1)
      × (w.made ≡ 0)
      × (w.config ≡ config)

  pub listening-IsListening :
      (config : WebSocketServerConfig) (w : WebSocketServer EchoHandler)
      → (Server.create acceptor unused config).0 ≡ some w
      → IsListening config (listening w)
  unfolding Server.create new_server Server.start
  listening-IsListening config w e =
      let opening = open_server acceptor (new_server {H = EchoHandler} unused config) in
      let (ok, same) = some-if (failed opening.0) opening.1 e in
      let fresh = open_server_lem acceptor (new_server {H = EchoHandler} unused config) refl in
      subst (λ t. IsListening config (listening t)) same
        (subst (λ t. IsListening config (listening t)) (sym fresh)
          (refl, ap not ok, refl, refl, refl, refl))

  -- `main` of the server returns 1, or it comes to `run` with a server that listens as configured.
  abbrev pub ServerBegins :
      List String → (String → Option ℕ) → Begun (WebSocketServer EchoHandler) → Type 0
  ServerBegins args stoul (returned code) = code ≡ 1
  ServerBegins args stoul (running w) =
      (o : ServerOptions) × (parse_server_options stoul args ≡ some o)
      × (o.port < 2 ^ 16)
      × IsListening (server_config o) w

  -- Whatever the command line and the answers of the system.
  pub begin_websocket_server_lem :
      (stoul : String → Option ℕ) (args : List String)
      → ServerBegins args stoul (begin_websocket_server stoul args)
  unfolding begin_websocket_server
  begin_websocket_server_lem stoul args =
      option_cases (ServerBegins args stoul) (parse_server_options stoul args) (λ _. refl)
        (λ o e.
          created-cases (ServerBegins args stoul) (Server.create acceptor unused (server_config o))
            _ refl
            (λ w f. (
              o,
              e,
              parse_server_options_lem stoul args o e,
              listening-IsListening (server_config o) w f,
            )))
