-- ===== src/Websocket/Client/Reopened.antt =====
-- A WebSocket client that is opened again: `open` of transport/websocket/websocket_session.hpp is
-- public, and can be called at any time.
use transit_session.Base.{Bool, false, ◌||◌, List}
use transit_session.Errors.{ErrorCode}
use transit_session.Core.{Call}
use transit_session.Core.Machine.{Step}
use transit_session.Websocket.{Bytes, WebSocketConfig}
use transit_session.Websocket.Client.{WebSocketSession, client_machine}
use transit_session.Websocket.Client.Open.{Network, open_client_session}

module _ {H : Type 0} where
  -- The steps of a session and calls of `open`, and whether one was made when the session was closed.
  pub data ClientLife (react : H → ErrorCode → Bytes → List (Call Bytes H ⊥))
      (s : WebSocketSession H) : Bool → WebSocketSession H → Type 0 where
    here : ClientLife react s false s
    next :
        {tried : Bool} {t u : WebSocketSession H}
        → ClientLife react s tried t
        → Step (client_machine react) t u
        → ClientLife react s tried u
    opens :
        {tried : Bool} {t : WebSocketSession H} (network : Network) (config : WebSocketConfig)
        → ClientLife react s tried t
        → ClientLife react s (tried || t.closed) (open_client_session network config t).1
