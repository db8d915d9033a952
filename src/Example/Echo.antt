-- ===== src/Example/Echo.antt =====
-- The echo server of example/websocket_server.cpp and of example/websocket_benchmark.cpp:
-- `attach_echo_behavior` on a WebSocket server session.
use transit_session.Base.{ℕ, ◌<◌, ◌≡◌, Option, none, some, List, [], ◌∷◌, ◌++◌, if◌then◌else◌}
use transit_session.Errors.{ErrorCode, failed}
use transit_session.Core.{
  Event, notified, Call, set_read_handler, start_reading, close, send, close_session, run_calls,
}
use transit_session.Core.Trace.{pending_reads, pending_writes}
use transit_session.Core.Arrival.{Arrival}
use transit_session.Websocket.{Bytes}
use transit_session.Websocket.ServerSession.{
  ServerCall, WebSocketServerSession, close_transport, server_derived, run_server_call,
  write_completed, read_completed, server_machine,
}
pub mod Answers
pub mod Served
pub mod Connection
mod Tests

-- The handler that is set.
pub data EchoHandler : Type 0 where
  echo : EchoHandler

abbrev pub EchoSession : Type 0
EchoSession = WebSocketServerSession EchoHandler

abbrev pub echo_react : EchoHandler → ErrorCode → Bytes → List (Call Bytes EchoHandler ServerCall)
echo_react echo ec bytes = if failed ec then close ∷ [] else send bytes ∷ []

abbrev pub attach_echo_behavior : EchoSession → EchoSession
attach_echo_behavior =
    run_calls server_derived run_server_call (set_read_handler (some echo) ∷ start_reading ∷ [])

-- The program makes no other call; `stop` of the listener may close the session.
pub data EchoReach (s : EchoSession) : EchoSession → Type 0 where
  here : EchoReach s s
  reads :
      {t : EchoSession}
      → EchoReach s t
      → (a : Arrival) → 0 < pending_reads t.trace
      → (server_machine echo_react).Arrives a t
      → EchoReach s (read_completed echo_react a t)
  writes :
      {t : EchoSession}
      → EchoReach s t
      → (ec : ErrorCode) → 0 < pending_writes t.trace
      → EchoReach s (write_completed ec t)
  closes : {t : EchoSession} → EchoReach s t → EchoReach s (close_session close_transport t)

-- The messages that the handler was given, oldest first.
abbrev pub received : List (Event Bytes Bytes) → List Bytes
received [] = []
received (notified ec value ∷ t) = if failed ec then received t else received t ++ value ∷ []
received (_ ∷ t) = received t
