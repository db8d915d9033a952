-- ===== src/Example/Programs/Tests.antt =====
-- The programs on systems and networks that work.
use Prim.Native.String.{String}
use transit_session.Base.{
  ℕ, Bool, ltb, arith, if_cases, if◌then◌else◌, ◌*◌, ◌≡◌, ◌⊎◌, refl, List, true, none, false,
  Option, some, [], ◌∷◌,
}
use transit_session.Errors.{ErrorCode, success}
use transit_session.Can.Linux.{linux_can, working, working-IsKernel}
use transit_session.Core.{Call, construct}
use transit_session.Websocket.{suggested_client, no_timeout, Bytes, Stream}
use transit_session.Websocket.Client.{client_state}
use transit_session.Websocket.Client.Open.{Network, create, open_stream}
use transit_session.Websocket.Server.{
  Phase, absent, handshaking, refused, up, Acceptor, WebSocketServer, accept_completed,
  handshake_completed,
}
use transit_session.Websocket.Server.System.{SystemReach, here, next, accepts, handshakes}
use transit_session.Example.Echo.{EchoHandler}
use transit_session.Example.Host.{little, exact}
use transit_session.Example.Payload.{make_payload, read_sequence}
use transit_session.Example.Stats.{Summary}
use transit_session.Example.Rounds.{
  Event, run_events, on_message, on_sequence, on_tick, send_next, complete,
}
use transit_session.Example.Options.{Options, default_options, parse_options, options_round}
use transit_session.Example.Programs.{running}
use transit_session.Example.Programs.Finished.{finish}
use transit_session.Example.Programs.Outcome.{websocket_benchmark_lem}
use transit_session.Example.Programs.Can.{CanBegins, begin_can_benchmark, begin_can_benchmark_lem}
use transit_session.Example.Programs.WebsocketBenchmark.{
  WebSocketMain, websocket_running, begin_client, benchmark_client_config, WebSocketBegins,
  begin_websocket_benchmark, begin_websocket_benchmark_lem,
}

-- Every number is read as three.
abbrev three : String → Option ℕ
three text = some 3

abbrev ticking : ℕ → ℕ
ticking k = 10 * k

begin_can_benchmark_lem_example :
    CanBegins three little ticking working linux_can
      (begin_can_benchmark three little ticking working linux_can ("--fd" ∷ "--samples" ∷ "3" ∷ []))
begin_can_benchmark_lem_example =
    begin_can_benchmark_lem three little ticking working linux_can working-IsKernel
      ("--fd" ∷ "--samples" ∷ "3" ∷ [])

abbrev unopened : Stream
unopened = record {
  is_open = false;
  binary = false;
  read_message_max = 16777216;
  timeout = no_timeout;
}

abbrev local : Network
local = record {
  resolve_answer = λ _ _. success;
  connect_answer = λ _ _. success;
  left_open = false;
  no_delay_answer = success;
  handshake_answer = λ _ _. success;
}

abbrev free_port : Acceptor
free_port = record {
  address_answer = λ _. success;
  open_answer = success;
  reuse_answer = success;
  bind_answer = λ _ _. success;
  listen_answer = λ _. success;
}

abbrev text_of : ℕ → String
text_of n = "9002"

abbrev opened : Stream
opened = record unopened { is_open = true }

abbrev is_handshaking : Phase → Bool
is_handshaking handshaking = true
is_handshaking _ = false

handshaking_of : (p : Phase) → is_handshaking p ≡ true → p ≡ handshaking
handshaking_of absent e = cc
handshaking_of handshaking e = refl
handshaking_of refused e = cc
handshaking_of up e = cc

-- The thread of the server accepts the connection of the client, and their handshake succeeds.
abbrev admits : WebSocketServer EchoHandler → WebSocketServer EchoHandler
admits w = if ltb 0 w.accepts_pending then accept_completed success opened success w else w

abbrev greets : WebSocketServer EchoHandler → WebSocketServer EchoHandler
greets w = if is_handshaking (w.phase 0) then handshake_completed 0 success w else w

abbrev serve : WebSocketServer EchoHandler → WebSocketServer EchoHandler
serve w = greets (admits w)

abbrev silent : EchoHandler → ErrorCode → Bytes → List (Call Bytes EchoHandler ⊥)
silent h ec bytes = []

admits_reached : (w : WebSocketServer EchoHandler) → SystemReach silent w (admits w)
admits_reached w =
    if_cases (SystemReach silent w) (ltb 0 w.accepts_pending)
      (λ e. next here (accepts success opened success (ground arith) refl (λ f. cc))) (λ _. here)

serve_reached : (w : WebSocketServer EchoHandler) → SystemReach silent w (serve w)
serve_reached w =
    if_cases (SystemReach silent w) (is_handshaking ((admits w).phase 0))
      (λ e. next (admits_reached w) (handshakes 0 success (handshaking_of _ e)))
      (λ _. admits_reached w)

begin_websocket_benchmark_lem_example :
    WebSocketBegins three text_of little ticking free_port unopened local unopened serve silent
      serve_reached
      (begin_websocket_benchmark three text_of little ticking free_port unopened local unopened
        serve
        ("--text" ∷ "--samples" ∷ "3" ∷ []))
begin_websocket_benchmark_lem_example =
    begin_websocket_benchmark_lem three text_of little ticking free_port unopened local unopened
      serve silent serve_reached ("--text" ∷ "--samples" ∷ "3" ∷ [])

-- Every number is read as four.
abbrev four : String → Option ℕ
four text = some 4

abbrev four_args : List String
four_args = "--external-server" ∷ "--samples" ∷ "4" ∷ "--payload" ∷ "4" ∷ []

abbrev four_options : Options
four_options = record default_options { external_server = true; samples = 4; payload_size = 4 }

abbrev benchmark : WebSocketMain
benchmark = record {
  server = none;
  client =
      websocket_running four text_of little ticking free_port unopened local unopened serve
        four_options
        (construct (record (client_state unopened) {
          stream = record {
            is_open = true;
            binary = true;
            read_message_max = 16;
            timeout = suggested_client;
          };
          config = benchmark_client_config text_of four_options;
        }));
}

benchmark_begins :
    begin_websocket_benchmark four text_of little ticking free_port unopened local unopened serve
      four_args
    ≡ running benchmark
unfolding begin_websocket_benchmark parse_options options_round begin_client create open_stream
    client_state benchmark_client_config
benchmark_begins = refl

abbrev echoes : List (Event Bytes)
echoes =
    Event.arrives success (make_payload little 4 0)
    ∷ Event.arrives success (make_payload little 4 1)
    ∷ Event.tick 50
    ∷ Event.arrives success (make_payload little 4 2)
    ∷ Event.arrives success (make_payload little 4 3)
    ∷ []

echoed :
    (run_events (on_message little 4 ticking 4) 1000 0 echoes benchmark.client.bench).completed
    ≡ true
unfolding websocket_running send_next on_message on_sequence on_tick complete make_payload
    read_sequence
echoed = refl

websocket_benchmark_lem_example :
    (parse_options four four_args ≡ some four_options)
    × ((finish exact
            (run_events (on_message little 4 ticking 4) 1000 0 echoes benchmark.client.bench)
          ≡ (1, none))
        ⊎ ((z : Summary) × (finish exact
                (run_events (on_message little 4 ticking 4) 1000 0 echoes benchmark.client.bench)
              ≡ (0, some z))
            × (z.count ≡ 4)))
unfolding websocket_running
websocket_benchmark_lem_example =
    websocket_benchmark_lem four text_of little ticking free_port unopened local unopened serve
      exact four_args benchmark 1000 0 echoes benchmark_begins echoed
