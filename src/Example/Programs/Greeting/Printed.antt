-- ===== src/Example/Programs/Greeting/Printed.antt =====
-- What the program prints when it is connected to an echo server.
use Prim.Native.String.{String}
use transit_session.Base.{
  option_cases, ◌≡◌, sym, ap, ◌∙◌, Bool, true, false, none, some, some-if, List, [], ◌∷◌, ◌++◌,
  subst,
}
use transit_session.Errors.{ErrorCode, failed}
use transit_session.Core.{set_read_handler, start_reading, send, construct, run_calls}
use transit_session.Core.Trace.{deliveries}
use transit_session.Core.Growth.{Extends}
use transit_session.Websocket.{Bytes, Stream, WebSocketConfig, WebSocketServerConfig}
use transit_session.Websocket.Client.{WebSocketSession, client_state}
use transit_session.Websocket.Client.Open.{Network, create, open_stream, reached-ClientInv}
use transit_session.Websocket.ServerSession.Start.{accepted_session}
use transit_session.Example.Echo.{EchoHandler, received}
use transit_session.Example.Echo.Connection.{Connection, ConnectionReach, client_calls}
use transit_session.Example.Echo.Connection.Taken.{successes, received-deliveries}
use transit_session.Example.Echo.Connection.Transit.{client-Reach}
use transit_session.Example.Echo.Connection.EndToEnd.{
  connected, IsIdle, echoed_in_order, echoed_completely,
}
use transit_session.Example.Options.Programs.{SessionOptions, parse_session_options}
use transit_session.Example.Programs.{Begun, running, ReadHandler, on_read, created-cases}
use transit_session.Example.Programs.Greeting.{
  session_config, begin_websocket_session, greeting_react, greet, GreetingReach,
}
use transit_session.Example.Programs.Greeting.Returned.{Greeted, Step-Greeted, greet-Kept}

-- Where `main` comes to `run`, it has made the first calls on the session that `create` returned.
module _ (bytes_of : String → Bytes) (network : Network) (client_stream : Stream)
    (args : List String) (s : WebSocketSession ReadHandler) where
  abbrev Runs : Type 0
  Runs =
      (o : SessionOptions) × (parse_session_options args ≡ some o)
      × ((u : WebSocketSession ReadHandler) × ((create network (session_config o) client_stream).0
            ≡ some u)
          × (greet (bytes_of o.message) u ≡ s))

  begin_websocket_session-running :
      begin_websocket_session bytes_of network client_stream args ≡ running s → Runs
  unfolding begin_websocket_session
  begin_websocket_session-running =
      let P : Begun (WebSocketSession ReadHandler) → Type 0 = λ b. b ≡ running s → Runs in
      option_cases P (parse_session_options args) (λ _ e. absurd (cc))
        (λ o f.
          created-cases P (create network (session_config o) client_stream) _ (λ e. absurd (cc))
            (λ u g e. (o, f, (u, g, cc))))

module _ (stream : Stream) (config : WebSocketServerConfig) (handler_set : Bool)
    (no_delay_answer accept_ec : ErrorCode) where
  abbrev pub line : WebSocketSession ReadHandler → Connection ReadHandler
  line = connected stream config handler_set no_delay_answer accept_ec

  -- The steps of the program and of its first calls are steps of the connection.
  greeting-Reach :
      (message : Bytes) (u : WebSocketSession ReadHandler) {c : Connection ReadHandler}
      → GreetingReach (line (greet message u)) c
      → ConnectionReach greeting_react (line u) c
  unfolding run_calls
  greeting-Reach message u GreetingReach.here =
      ConnectionReach.next
        (ConnectionReach.next
          (ConnectionReach.next ConnectionReach.here
            (client_calls (set_read_handler (some on_read))))
          (client_calls start_reading))
        (client_calls (send message))
  greeting-Reach message u (GreetingReach.next r e st q) =
      ConnectionReach.next (greeting-Reach message u r) st

  module _ (network : Network) (client_config : WebSocketConfig) (client_stream : Stream) where
    created-Greeted :
        (message : Bytes) (u : WebSocketSession ReadHandler)
        → (create network client_config client_stream).0 ≡ some u
        → Greeted (message ∷ []) (line (greet message u))
    unfolding create
    created-Greeted message u e =
        let opening = open_stream network client_config (client_state client_stream) in
        let (_, same) = some-if (failed opening.0) (construct opening.1) e in
        let (kept, printed) = greet-Kept message opening.1 in
        subst (λ t. Greeted (message ∷ []) (line (greet message t))) same
          (record { kept = kept; printed = printed })

    greeting-Greeted :
        (message : Bytes) (u : WebSocketSession ReadHandler) {c : Connection ReadHandler}
        → (create network client_config client_stream).0 ≡ some u
        → GreetingReach (line (greet message u)) c
        → Greeted (message ∷ []) c
    greeting-Greeted message u e GreetingReach.here = created-Greeted message u e
    greeting-Greeted message u e (GreetingReach.next r f st q) =
        let inv =
          reached-ClientInv network client_config client_stream greeting_react e
            (client-Reach greeting_react (greeting-Reach message u r)) in
        Step-Greeted inv (greeting-Greeted message u e r) st q

  module _ (is_open : stream.is_open ≡ true)
      (begun : (accepted_session {H = EchoHandler} stream config handler_set no_delay_answer
          accept_ec).1
        ≡ none)
      (ok : failed accept_ec ≡ false) (bytes_of : String → Bytes) (network : Network)
      (client_stream : Stream) (args : List String) {s : WebSocketSession ReadHandler} where
    -- The client program, from the moment when `main` comes to `run`, connected to an echo server
    -- session over an open socket by a network that keeps the order of each direction, until a read
    -- handler has run: whatever the command line, the network and either side's reads and writes
    -- come to, what the program prints is nothing, or once the message of its command line; and it
    -- does not wait for nothing: while no handler has run, the connection is not idle with both
    -- sides open.
    pub greeting_lem :
        {c : Connection ReadHandler}
        → begin_websocket_session bytes_of network client_stream args ≡ running s
        → GreetingReach (line s) c
        → ((o : SessionOptions) × (parse_session_options args ≡ some o)
            × Extends (received c.client.trace) (bytes_of o.message ∷ []))
          × ¬ ((deliveries c.client.trace ≡ []) × IsIdle c)
    greeting_lem {c} e r =
        let (o, parsed, (u, f, same)) =
          begin_websocket_session-running bytes_of network client_stream args s e in
        let reached : GreetingReach (line (greet (bytes_of o.message) u)) c =
          subst (λ t. GreetingReach (line t) c) (sym same) r in
        let path = greeting-Reach (bytes_of o.message) u reached in
        let known =
          greeting-Greeted network (session_config o) client_stream (bytes_of o.message) u f
            reached in
        let (rest, front) =
          echoed_in_order stream config handler_set no_delay_answer accept_ec is_open begun ok
            network (session_config o) client_stream greeting_react f path in
        (
          (o, parsed, (rest, sym known.kept.1 ∙ front ∙ ap (λ l. l ++ rest) (sym known.printed))),
          λ (silent, idle).
              let back =
                echoed_completely stream config handler_set no_delay_answer accept_ec is_open begun
                  ok network (session_config o) client_stream greeting_react f path idle in
              let none_printed : received c.client.trace ≡ [] =
                received-deliveries c.client.trace ∙ ap successes silent in
              absurd (cc (known.kept.1, known.printed, back, none_printed)),
        )
