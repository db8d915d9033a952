-- ===== src/Example/Programs/WebsocketBenchmark.antt =====
-- `main` of example/websocket_benchmark.cpp, which has a server of its own unless it is told to use
-- another.
use Prim.Native.String.{String}
use transit_session.Base.{
  ℕ, ◌*◌, ◌%◌, ◌^◌, ◌<◌, ◌≡◌, refl, sym, true, false, not, Option, none, some, some-if, List, [],
  ◌∷◌, arith, subst, if_cases, option_cases, if◌then◌else◌,
}
use transit_session.Errors.{ErrorCode, failed}
use transit_session.Core.{
  Call, construct, run_call, run_calls, schedule_operations, enqueue_write, try_read, try_write,
}
use transit_session.Core.Trace.{writes}
use transit_session.Websocket.{
  Bytes, Stream, WebSocketConfig, WebSocketServerConfig, default_web_socket_config,
  default_web_socket_server_config,
}
use transit_session.Websocket.Client.{
  WebSocketSession, ClientState, client_state, client_derived, no_own, can_start_read,
  can_start_write, do_read, do_write,
}
use transit_session.Websocket.Client.Open
use transit_session.Websocket.Client.Open.{Network, open_stream}
use transit_session.Websocket.Server.{
  Acceptor, WebSocketServer, new_server, open_server, set_session_handler,
}
use transit_session.Websocket.Server
use transit_session.Websocket.Server.System.{SystemReach, here, next, sets, starts}
use transit_session.Websocket.Server.Stopping.{SystemInv}
use transit_session.Websocket.Server.Life.{created_server-SystemInv, SystemReach-SystemInv}
use transit_session.Example.Payload.{Host, make_payload}
use transit_session.Example.Rounds.{new_bench, send_next}
use transit_session.Example.Options.{Options, parse_options}
use transit_session.Example.Options.Accepted.{accepted}
use transit_session.Example.Echo.{EchoHandler}
use transit_session.Example.Programs.{
  Begun, returned, running, created, ReadHandler, first_calls, first_request, created-cases, Main,
}
use transit_session.Example.Programs.Websocket.{listening, IsListening, listening-IsListening}

unfoldable pub benchmark_server_config : Options → WebSocketServerConfig
benchmark_server_config o = record default_web_socket_server_config {
  bind_address = o.listen_address;
  port = o.port;
  binary_mode = o.binary_mode;
}

-- `to_string` is `std::to_string`. The limit is computed with 64 bits.
unfoldable pub benchmark_client_config : (ℕ → String) → Options → WebSocketConfig
benchmark_client_config to_string o = record default_web_socket_config {
  host = o.host;
  port = to_string o.port;
  target = o.target;
  binary_mode = o.binary_mode;
  max_message_size = o.payload_size * 4 % 2 ^ 64;
}

-- `main` of the benchmark has its server besides, if any.
pub record WebSocketMain : Type 0 where
  pub server : Option (WebSocketServer EchoHandler)
  pub client : Main Options Bytes (WebSocketSession ReadHandler)

-- `serve` is what the thread of the server and its peers do, from the start of the server to the
-- handshake of the client.
module _ (stoull : String → Option ℕ) (to_string : ℕ → String) (host : Host) (clock : ℕ → ℕ)
    (acceptor : Acceptor) (unused : Stream) (network : Network) (stream : Stream)
    (serve : WebSocketServer EchoHandler → WebSocketServer EchoHandler) where
  -- From the first `send_next` on.
  unfoldable pub websocket_running :
      Options → WebSocketSession ReadHandler → Main Options Bytes (WebSocketSession ReadHandler)
  websocket_running o s =
      let b = send_next o.samples clock (make_payload host o.payload_size) new_bench in
      record {
        options = o;
        bench = b;
        session = run_calls client_derived no_own (first_calls b.in_flight) s;
      }

  -- From `client_config` on. Where it returns, it has stopped the server.
  unfoldable pub begin_client : Options → Option (WebSocketServer EchoHandler) → Begun WebSocketMain
  begin_client o server =
      created (Open.create network (benchmark_client_config to_string o) stream)
        (λ s. running (record { server = server; client = websocket_running o s }))

  unfoldable pub begin_websocket_benchmark : List String → Begun WebSocketMain
  begin_websocket_benchmark args = elim (parse_options stoull args) [
    | none ↦ returned 1
    | some o ↦
        if not o.external_server
        then created (Server.create acceptor unused (benchmark_server_config o))
            (λ w. begin_client o (some (serve (listening acceptor unused w))))
        else begin_client o none
  ]

  -- The session takes messages of so many bytes, it reads, and its only message is being written.
  abbrev AsksWithin : ℕ → Bytes → WebSocketSession ReadHandler → Type 0
  AsksWithin limit request s =
      (s.closed ≡ false)
      × (s.own.stream.is_open ≡ true)
      × (s.read_in_progress ≡ true)
      × (s.write_in_progress ≡ true)
      × (writes s.trace ≡ request ∷ [])
      × (s.own.stream.read_message_max ≡ limit)

  first_calls-AsksWithin :
      (limit : ℕ) (d : ClientState) (request : Bytes)
      → d.stream.is_open ≡ true
      → d.stream.read_message_max ≡ limit
      → AsksWithin limit request
          (run_calls client_derived no_own (first_calls (request ∷ [])) (construct d))
  unfolding construct run_call run_calls schedule_operations enqueue_write try_read try_write
      can_start_read can_start_write do_read do_write
  first_calls-AsksWithin limit d request e f = (refl, e, refl, refl, refl, f)

  module _ (react : EchoHandler → ErrorCode → Bytes → List (Call Bytes EchoHandler ⊥))
      (serves : (w : WebSocketServer EchoHandler) → SystemReach react w (serve w)) where
    -- The server is some steps behind one that listens.
    abbrev ServerIs : Options → Option (WebSocketServer EchoHandler) → Type 0
    ServerIs o none = o.external_server ≡ true
    ServerIs o (some w) =
        (o.external_server ≡ false)
        × ((first : WebSocketServer EchoHandler) × IsListening acceptor unused
              (benchmark_server_config o) first
            × SystemReach react first w
            × SystemInv w)

    -- What `main` leaves behind, by the options that were accepted.
    abbrev pub WebSocketBegins : Begun WebSocketMain → Type 0
    WebSocketBegins (returned code) = code ≡ 1
    WebSocketBegins (running m) =
        let o = m.client.options in
        let request = make_payload host o.payload_size 0 in
        ServerIs o m.server
        × (m.client.bench.in_flight ≡ request ∷ [])
        × (m.client.bench.sent_count ≡ 1)
        × AsksWithin (o.payload_size * 4 % 2 ^ 64) request m.client.session

    listening-SystemInv :
        (o : Options) (w : WebSocketServer EchoHandler)
        → (Server.create acceptor unused (benchmark_server_config o)).0 ≡ some w
        → SystemInv (serve (listening acceptor unused w))
    listening-SystemInv o w e =
        SystemReach-SystemInv react
          (created_server-SystemInv react acceptor unused (benchmark_server_config o) e
            (next (next here (sets true)) starts))
          (serves (listening acceptor unused w))

    begin_client-WebSocketBegins :
        (o : Options) (server : Option (WebSocketServer EchoHandler))
        → 0 < o.samples
        → ServerIs o server
        → WebSocketBegins (begin_client o server)
    unfolding begin_client websocket_running benchmark_client_config Open.create
    begin_client-WebSocketBegins o server h w =
        let config = benchmark_client_config to_string o in
        let opening = open_stream network config (client_state stream) in
        let request = make_payload host o.payload_size 0 in
        let (queued, counted) =
          first_request o.samples clock (make_payload host o.payload_size) h in
        created-cases WebSocketBegins (Open.create network config stream) _ refl (λ s e.
          let (ok, same) = some-if (failed opening.0) (construct opening.1) e in
          let (_, _, good) = Open.open_stream-Opened network config (client_state stream) in
          let (is_open, _, limit, _) = good ok in
          let asks = λ (q : List Bytes) (t : WebSocketSession ReadHandler).
            AsksWithin (o.payload_size * 4 % 2 ^ 64) request
              (run_calls client_derived no_own (first_calls q) t) in
          (
            w,
            queued,
            counted,
            subst (λ q. asks q s) (sym queued)
                (subst (asks (request ∷ [])) same (
                  first_calls-AsksWithin (o.payload_size * 4 % 2 ^ 64) opening.1 request is_open
                    limit)),
          ))

    -- Whatever the command line and the answers of the system and the network, `main` of the
    -- WebSocket benchmark returns 1, or it comes to `run` with one request, of sequence number 0,
    -- which the open client session is writing while it reads, and with a limit of four times the
    -- size of a payload, as 64 bits hold it; its own server, which it has unless it was told to use
    -- another and whose thread and peers do any steps, with handlers that leave the close handler
    -- of a session alone, has come in these steps from a listener with the configuration of the
    -- command line that had accepted nothing, and satisfies the invariant of the listener.
    pub begin_websocket_benchmark_lem :
        (args : List String) → WebSocketBegins (begin_websocket_benchmark args)
    unfolding begin_websocket_benchmark
    begin_websocket_benchmark_lem args =
        option_cases WebSocketBegins (parse_options stoull args) (λ _. refl)
          (λ o e.
            let (_, _, h) = accepted stoull args o e in
            if_cases WebSocketBegins (not o.external_server)
              (λ f.
                created-cases WebSocketBegins
                  (Server.create acceptor unused (benchmark_server_config o)) _ refl
                  (λ w g. begin_client-WebSocketBegins o _ h (
                    ground arith,
                    (
                      listening acceptor unused w,
                      listening-IsListening acceptor unused (benchmark_server_config o) w g,
                      serves (listening acceptor unused w),
                      listening-SystemInv o w g,
                    ),
                  )))
              (λ f. begin_client-WebSocketBegins o none h (ground arith)))
