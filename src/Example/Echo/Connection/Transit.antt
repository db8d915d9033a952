-- ===== src/Example/Echo/Connection/Transit.antt =====
-- Both sessions of a connection step as sessions do, and what is under way between them is in order.
use transit_session.Base.{◌≡◌, ap, ◌∙◌, Bool, List, [], ◌∷◌, ◌++◌, if◌then◌else◌}
use transit_session.Errors.{ErrorCode}
use transit_session.Core.{Call, run_call, close}
use transit_session.Core.Trace.{writes}
use transit_session.Core.Machine.{Step, Reach, Step-Keeps}
use transit_session.Core.Growth.{Extends, HasWritten}
use transit_session.Websocket.{Bytes}
use transit_session.Websocket.Client.{WebSocketSession, client_machine}
use transit_session.Websocket.Growth.{client_machine-grows, server_machine-grows}
use transit_session.Websocket.ServerSession.{server_machine}
use transit_session.Websocket.ServerSession.Safety.{ServerInv}
use transit_session.Example.Echo.{EchoSession, echo_react, EchoReach, received}
use transit_session.Example.Echo.Answers.{Answered}
use transit_session.Example.Echo.Connection.{Connection, ConnectionStep, ConnectionReach}
use transit_session.Example.Echo.Connection.Taken.{received-read, received-write, received-close}

-- What has arrived at a side is the front of what the other has written, and the server session has
-- received what has arrived at it.
pub record Transit {H : Type 0} (c : Connection H) : Type 0 where
  pub there : Extends c.to_server (writes c.client.trace)
  pub back : Extends c.to_client (writes c.server.trace)
  pub taken : received c.server.trace ≡ c.to_server

module _ {H : Type 0} (react : H → ErrorCode → Bytes → List (Call Bytes H ⊥)) where
  pub client-Reach :
      {c d : Connection H}
      → ConnectionReach react c d
      → Reach (client_machine react) c.client d.client
  client-Reach ConnectionReach.here = Reach.here
  client-Reach (ConnectionReach.next r (ConnectionStep.client_calls x)) =
      Reach.next (client-Reach r) (Step.calls x)
  client-Reach (ConnectionReach.next r (ConnectionStep.client_writes ec h)) =
      Reach.next (client-Reach r) (Step.write_completes ec h)
  client-Reach (ConnectionReach.next r (ConnectionStep.client_fails a h k f)) =
      Reach.next (client-Reach r) (Step.read_completes a h k)
  client-Reach (ConnectionReach.next r (ConnectionStep.client_receives a h k f e)) =
      Reach.next (client-Reach r) (Step.read_completes a h k)
  client-Reach (ConnectionReach.next r (ConnectionStep.server_writes ec h)) = client-Reach r
  client-Reach (ConnectionReach.next r (ConnectionStep.server_fails a h k f)) = client-Reach r
  client-Reach (ConnectionReach.next r (ConnectionStep.server_receives a h k f e)) = client-Reach r
  client-Reach (ConnectionReach.next r ConnectionStep.server_closes) = client-Reach r

  pub server-Reach : {c d : Connection H} → ConnectionReach react c d → EchoReach c.server d.server
  server-Reach ConnectionReach.here = EchoReach.here
  server-Reach (ConnectionReach.next r (ConnectionStep.client_calls x)) = server-Reach r
  server-Reach (ConnectionReach.next r (ConnectionStep.client_writes ec h)) = server-Reach r
  server-Reach (ConnectionReach.next r (ConnectionStep.client_fails a h k f)) = server-Reach r
  server-Reach (ConnectionReach.next r (ConnectionStep.client_receives a h k f e)) = server-Reach r
  server-Reach (ConnectionReach.next r (ConnectionStep.server_writes ec h)) =
      EchoReach.writes (server-Reach r) ec h
  server-Reach (ConnectionReach.next r (ConnectionStep.server_fails a h k f)) =
      EchoReach.reads (server-Reach r) a h k
  server-Reach (ConnectionReach.next r (ConnectionStep.server_receives a h k f e)) =
      EchoReach.reads (server-Reach r) a h k
  server-Reach (ConnectionReach.next r ConnectionStep.server_closes) =
      EchoReach.closes (server-Reach r)

  client-grows :
      (xs : List Bytes) {s t : WebSocketSession H}
      → Step (client_machine react) s t
      → HasWritten xs s
      → HasWritten xs t
  client-grows xs st = Step-Keeps (client_machine-grows react xs) st

  server-grows :
      (xs : List Bytes) {s t : EchoSession}
      → Step (server_machine echo_react) s t
      → HasWritten xs s
      → HasWritten xs t
  server-grows xs st = Step-Keeps (server_machine-grows echo_react xs) st

  Step-Transit :
      {c d : Connection H}
      → ServerInv c.server
      → Answered c.server
      → Transit c
      → ConnectionStep react c d
      → Transit d
  unfolding run_call
  Step-Transit {c} i w v (ConnectionStep.client_calls x) = record {
    there = client-grows c.to_server (Step.calls x) v.there;
    back = v.back;
    taken = v.taken;
  }
  Step-Transit {c} i w v (ConnectionStep.client_writes ec h) = record {
    there = client-grows c.to_server (Step.write_completes ec h) v.there;
    back = v.back;
    taken = v.taken;
  }
  Step-Transit {c} i w v (ConnectionStep.client_fails a h k f) = record {
    there = client-grows c.to_server (Step.read_completes a h k) v.there;
    back = v.back;
    taken = v.taken;
  }
  Step-Transit {c} i w v (ConnectionStep.client_receives a h k f e) = record {
    there = client-grows c.to_server (Step.read_completes a h k) v.there;
    back = e;
    taken = v.taken;
  }
  Step-Transit {c} i w v (ConnectionStep.server_writes ec h) = record {
    there = v.there;
    back = server-grows c.to_client (Step.write_completes ec h) v.back;
    taken = received-write ec c.server ∙ v.taken;
  }
  Step-Transit {c} i w v (ConnectionStep.server_fails a h k f) = record {
    there = v.there;
    back = server-grows c.to_client (Step.read_completes a h k) v.back;
    taken =
        received-read a c.server i w h
        ∙ ap
            (λ (b : Bool).
              if b then received c.server.trace else received c.server.trace ++ a.bytes ∷ [])
            f
        ∙ v.taken;
  }
  Step-Transit {c} i w v (ConnectionStep.server_receives a h k f e) = record {
    there = e;
    back = server-grows c.to_client (Step.read_completes a h k) v.back;
    taken =
        received-read a c.server i w h
        ∙ ap
            (λ (b : Bool).
              if b then received c.server.trace else received c.server.trace ++ a.bytes ∷ [])
            f
        ∙ ap (λ l. l ++ a.bytes ∷ []) v.taken;
  }
  Step-Transit {c} i w v ConnectionStep.server_closes = record {
    there = v.there;
    back = server-grows c.to_client (Step.calls close) v.back;
    taken = received-close c.server ∙ v.taken;
  }

  pub Reach-Transit :
      {c d : Connection H}
      → ((t : EchoSession) → EchoReach c.server t → ServerInv t × Answered t)
      → Transit c
      → ConnectionReach react c d
      → Transit d
  Reach-Transit good v ConnectionReach.here = v
  Reach-Transit good v (ConnectionReach.next r st) =
      let (i, w) = good _ (server-Reach r) in Step-Transit i w (Reach-Transit good v r) st
