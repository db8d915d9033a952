-- ===== src/Example/Echo/Connection/EndToEnd.antt =====
-- From the client's `send` to its read handler, through the network and the echo server.
use transit_session.Base.{Bool, ◌≡◌, refl, sym, ◌∙◌, true, false, none, some, List, []}
use transit_session.Errors.{ErrorCode, failed}
use transit_session.Core.{Call}
use transit_session.Core.Trace.{messages, writes}
use transit_session.Core.Growth.{Extends, Extends-trans, messages-writes}
use transit_session.Websocket.{Bytes, Stream, WebSocketConfig, WebSocketServerConfig}
use transit_session.Core.Settled.{Settled}
use transit_session.Websocket.Client.Safety.{ClientInv}
use transit_session.Websocket.Client.{WebSocketSession}
use transit_session.Websocket.Client.Open.{
  Network, create, reached-ClientInv, created_client-Settled,
}
use transit_session.Websocket.ServerSession.Start.{accepted_session}
use transit_session.Example.Echo.{EchoHandler, attach_echo_behavior, received}
use transit_session.Example.Echo.Served.{first, no_trace, first-good, echo_server_lem}
use transit_session.Example.Echo.Connection.{Connection, ConnectionReach}
use transit_session.Example.Echo.Connection.Taken.{attach-received}
use transit_session.Example.Echo.Connection.Transit.{
  Transit, client-Reach, server-Reach, Reach-Transit,
}

-- Both sessions are open and no write is under way, and what each wrote has arrived at the other.
pub record IsIdle {H : Type 0} (c : Connection H) : Type 0 where
  pub client_open : c.client.closed ≡ false
  pub server_open : c.server.closed ≡ false
  pub client_written : c.client.write_in_progress ≡ false
  pub server_written : c.server.write_in_progress ≡ false
  pub arrived : c.to_server ≡ writes c.client.trace
  pub returned : c.to_client ≡ writes c.server.trace

module _ (stream : Stream) (config : WebSocketServerConfig) (handler_set : Bool)
    (no_delay_answer accept_ec : ErrorCode) where
  -- A client that nothing was asked of yet, connected to an echo server session.
  abbrev pub connected : {H : Type 0} → WebSocketSession H → Connection H
  connected s = record {
    client = s;
    server = attach_echo_behavior (first stream config handler_set no_delay_answer accept_ec);
    to_server = [];
    to_client = [];
  }

  module _ (is_open : stream.is_open ≡ true)
      (begun : (accepted_session {H = EchoHandler} stream config handler_set no_delay_answer
          accept_ec).1
        ≡ none)
      (ok : failed accept_ec ≡ false) (network : Network) (client_config : WebSocketConfig)
      (client_stream : Stream) {H : Type 0}
      (react : H → ErrorCode → Bytes → List (Call Bytes H ⊥)) where
    -- What the two invariants, the echo and the network say together.
    record Known (c : Connection H) : Type 0 where
      inv : ClientInv c.client
      settled : Settled c.client
      transit : Transit c
      kept : Extends (writes c.server.trace) (received c.server.trace)
      all :
          c.server.closed ≡ false
          → c.server.write_in_progress ≡ false
          → received c.server.trace ≡ writes c.server.trace

    known :
        {s : WebSocketSession H} {c : Connection H}
        → (create network client_config client_stream).0 ≡ some s
        → ConnectionReach react (connected s) c
        → Known c
    known {s} {c} e r =
        let good =
          first-good stream config handler_set no_delay_answer accept_ec is_open begun ok in
        let start : Transit (connected s) = record {
          there = (writes s.trace, refl);
          back = (writes (connected s).server.trace, refl);
          taken =
              attach-received _
                (no_trace stream config handler_set no_delay_answer accept_ec is_open begun ok);
        } in
        let (kept, all) =
          echo_server_lem stream config handler_set no_delay_answer accept_ec is_open begun ok
            (server-Reach react r) in
        record {
          inv =
              reached-ClientInv network client_config client_stream react e (client-Reach react r);
          settled =
              created_client-Settled network client_config client_stream react e
                (client-Reach react r);
          transit = Reach-Transit react (λ u q. let (i, _, a) = good u q in (i, a)) start r;
          kept = kept;
          all = all;
        }

    -- A client that `create` returned, connected to an echo server session over an open socket by a
    -- network that keeps the order of each direction: whatever the client's program does, whatever
    -- the writes and reads come to, and whenever either side closes, the messages that have arrived
    -- at the client are, in order, the front of those that it was given to send.
    pub echoed_in_order :
        {s : WebSocketSession H} {c : Connection H}
        → (create network client_config client_stream).0 ≡ some s
        → ConnectionReach react (connected s) c
        → Extends c.to_client (messages c.client.trace)
    echoed_in_order {s} {c} e r =
        let k = known e r in
        let t = k.transit in
        let sent = writes c.client.trace in
        let echoed = writes c.server.trace in
        let taken : Extends echoed c.to_server = (k.kept.0, sym t.taken ∙ k.kept.1) in
        Extends-trans c.to_client sent (messages c.client.trace)
          (Extends-trans c.to_client c.to_server sent
            (Extends-trans c.to_client echoed c.to_server t.back taken) t.there)
          (k.inv.base.unsent, k.inv.base.ordered)

    -- When such a connection is idle, with both sides open, no write under way and nothing on its
    -- way, every message that the client was given to send has come back to it, once and in order.
    pub echoed_completely :
        {s : WebSocketSession H} {c : Connection H}
        → (create network client_config client_stream).0 ≡ some s
        → ConnectionReach react (connected s) c
        → IsIdle c
        → c.to_client ≡ messages c.client.trace
    echoed_completely {s} {c} e r idle =
        let k = known e r in
        idle.returned
        ∙ sym (k.all idle.server_open idle.server_written)
        ∙ k.transit.taken
        ∙ idle.arrived
        ∙ sym (messages-writes c.client k.inv.base k.settled idle.client_open idle.client_written)
