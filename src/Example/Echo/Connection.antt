-- ===== src/Example/Echo/Connection.antt =====
-- A client and an echo server session with a network between them, which hands each side the messages
-- of the other, in order.
use transit_session.Base.{◌≤◌, ◌<◌, ◌≡◌, true, false, List, [], ◌∷◌, ◌++◌, length}
use transit_session.Errors.{ErrorCode, failed}
use transit_session.Core.{Call, run_call, close_session}
use transit_session.Core.Trace.{pending_reads, pending_writes, writes}
use transit_session.Core.Arrival.{Arrival}
use transit_session.Core.Growth.{Extends}
use transit_session.Websocket.{Bytes}
use transit_session.Websocket.Client
use transit_session.Websocket.Client.{WebSocketSession, client_derived, client_machine, no_own}
use transit_session.Websocket.ServerSession
use transit_session.Websocket.ServerSession.{server_machine}
use transit_session.Example.Echo.{EchoHandler, EchoSession, echo_react}
pub mod Taken
pub mod Transit
pub mod EndToEnd
mod Tests

-- The two sessions, and the messages that have arrived at each.
pub record Connection (H : Type 0) : Type 0 where
  pub client : WebSocketSession H
  pub server : EchoSession
  pub to_server : List Bytes
  pub to_client : List Bytes

-- `react` is what the client's handlers do. A read may succeed with the next message of the other
-- side's writes, or fail; a write may end with any code.
module _ {H : Type 0} (react : H → ErrorCode → Bytes → List (Call Bytes H ⊥)) where
  pub data ConnectionStep (c : Connection H) : Connection H → Type 0 where
    client_calls :
        (x : Call Bytes H ⊥)
        → ConnectionStep c (record c { client = run_call client_derived no_own x c.client })
    client_writes :
        (ec : ErrorCode)
        → 0 < pending_writes c.client.trace
        → ConnectionStep c (record c { client = Client.write_completed ec c.client })
    client_fails :
        (a : Arrival)
        → 0 < pending_reads c.client.trace
        → (client_machine react).Arrives a c.client
        → failed a.ec ≡ true
        → ConnectionStep c (record c { client = Client.read_completed react a c.client })
    client_receives :
        (a : Arrival)
        → 0 < pending_reads c.client.trace
        → (client_machine react).Arrives a c.client
        → failed a.ec ≡ false
        → Extends (c.to_client ++ a.bytes ∷ []) (writes c.server.trace)
        → ConnectionStep c (record c {
          client = Client.read_completed react a c.client;
          to_client = c.to_client ++ a.bytes ∷ [];
        })
    server_writes :
        (ec : ErrorCode)
        → 0 < pending_writes c.server.trace
        → ConnectionStep c (record c { server = ServerSession.write_completed ec c.server })
    server_fails :
        (a : Arrival)
        → 0 < pending_reads c.server.trace
        → (server_machine echo_react).Arrives a c.server
        → failed a.ec ≡ true
        → ConnectionStep c
            (record c { server = ServerSession.read_completed echo_react a c.server })
    server_receives :
        (a : Arrival)
        → 0 < pending_reads c.server.trace
        → (server_machine echo_react).Arrives a c.server
        → failed a.ec ≡ false
        → Extends (c.to_server ++ a.bytes ∷ []) (writes c.client.trace)
        → ConnectionStep c (record c {
          server = ServerSession.read_completed echo_react a c.server;
          to_server = c.to_server ++ a.bytes ∷ [];
        })
    server_closes :
        ConnectionStep c
          (record c { server = close_session ServerSession.close_transport c.server })

  pub data ConnectionReach (c : Connection H) : Connection H → Type 0 where
    here : ConnectionReach c c
    next : {d e : Connection H} → ConnectionReach c d → ConnectionStep d e → ConnectionReach c e
