-- ===== src/Example/Programs/Outcome.antt =====
-- The WebSocket benchmark from its command line to what `main` returns.
use Prim.Native.String.{String}
use transit_session.Base.{
  ℕ, ◌≡◌, ◌⊎◌, refl, sym, true, not, Option, none, some, List, [], subst, if_cases, option_cases,
}
use transit_session.Websocket.{Bytes, Stream}
use transit_session.Websocket.Client.Open.{Network, create}
use transit_session.Websocket.Server.{Acceptor, WebSocketServer}
use transit_session.Websocket.Server
use transit_session.Example.Payload.{Host, make_payload}
use transit_session.Example.Stats.{Standard, Summary}
use transit_session.Example.Rounds.{Bench, new_bench, send_next, on_message, Event, run_events}
use transit_session.Example.Rounds.Progress.{BenchInv, run_events_lem}
use transit_session.Example.Options.{Options, parse_options}
use transit_session.Example.Options.Accepted.{accepted}
use transit_session.Example.Echo.{EchoHandler}
use transit_session.Example.Programs.{Begun, running, created-cases}
use transit_session.Example.Programs.WebsocketBenchmark.{
  benchmark_server_config, benchmark_client_config, WebSocketMain, websocket_running, begin_client,
  begin_websocket_benchmark,
}
use transit_session.Example.Programs.Finished.{finish, finish_lem}

module _ (stoull : String → Option ℕ) (to_string : ℕ → String) (host : Host) (clock : ℕ → ℕ)
    (acceptor : Acceptor) (unused : Stream) (network : Network) (stream : Stream)
    (serve : WebSocketServer EchoHandler → WebSocketServer EchoHandler) where
  -- The options are those of the command line, and the first request was made.
  abbrev Starts : List String → WebSocketMain → Type 0
  Starts args m =
      let o = m.client.options in
      (parse_options stoull args ≡ some o)
      × (m.client.bench ≡ send_next o.samples clock (make_payload host o.payload_size) new_bench)

  begin_client-Starts :
      (args : List String) (m : WebSocketMain) (o : Options)
      (server : Option (WebSocketServer EchoHandler))
      → parse_options stoull args ≡ some o
      → begin_client stoull to_string host clock acceptor unused network stream serve o server
        ≡ running m
      → Starts args m
  unfolding begin_client websocket_running
  begin_client-Starts args m o server f =
      created-cases (λ (b : Begun WebSocketMain). b ≡ running m → Starts args m)
        (create network (benchmark_client_config to_string o) stream) _ (λ e. absurd (cc))
        (λ s g e. let same = running-same e in subst (Starts args) same (f, refl))
    where
      running-same : {k l : WebSocketMain} → running k ≡ running l → k ≡ l
      running-same e = cc

  begin_websocket_benchmark-Starts :
      (args : List String) (m : WebSocketMain)
      → begin_websocket_benchmark stoull to_string host clock acceptor unused network stream serve
          args
        ≡ running m
      → Starts args m
  unfolding begin_websocket_benchmark
  begin_websocket_benchmark-Starts args m =
      let P : Begun WebSocketMain → Type 0 = λ b. b ≡ running m → Starts args m in
      option_cases P (parse_options stoull args) (λ _ e. absurd (cc))
        (λ o f.
          if_cases P (not o.external_server)
            (λ _.
              created-cases P (Server.create acceptor unused (benchmark_server_config o)) _
                (λ e. absurd (cc)) (λ w g. begin_client-Starts args m o _ f))
            (λ _. begin_client-Starts args m o none f))

  -- The run after some messages, errors and rounds of the timeout thread.
  abbrev ran : WebSocketMain → ℕ → ℕ → List (Event Bytes) → Bench Bytes
  ran m limit start es =
      let o = m.client.options in
      run_events (on_message host o.samples clock o.payload_size) limit start es m.client.bench

  -- A run of the WebSocket benchmark that has come to `run`, whatever its read handler is called
  -- with and whatever the timeout thread finds: once it is completed, `main` returns 1 and prints
  -- no summary, or it returns 0 and prints a summary that counts as many samples as its options ask
  -- for, which are those of the command line.
  pub websocket_benchmark_lem :
      (std : Standard) (args : List String) (m : WebSocketMain) (limit start : ℕ)
      (es : List (Event Bytes))
      → begin_websocket_benchmark stoull to_string host clock acceptor unused network stream serve
          args
        ≡ running m
      → (ran m limit start es).completed ≡ true
      → (parse_options stoull args ≡ some m.client.options)
        × ((finish std (ran m limit start es) ≡ (1, none))
            ⊎ ((z : Summary) × (finish std (ran m limit start es) ≡ (0, some z))
                × (z.count ≡ m.client.options.samples)))
  websocket_benchmark_lem std args m limit start es e completed =
      let o = m.client.options in
      let (parsed, first) = begin_websocket_benchmark-Starts args m e in
      let (_, _, h) = accepted stoull args o parsed in
      let (kept, _) =
        run_events_lem host o.samples clock limit start o.payload_size 0 true es [] h in
      let inv : BenchInv o.samples (ran m limit start es) =
        subst
          (λ b.
            BenchInv o.samples
              (run_events (on_message host o.samples clock o.payload_size) limit start es b))
          (sym first) kept in
      (parsed, finish_lem std o.samples (ran m limit start es) h inv completed)
