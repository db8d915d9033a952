-- ===== src/Example/Programs/Greeting.antt =====
-- example/websocket_session.cpp: the program sends one message, prints the first that comes back, and
-- stops. `bytes_of` gives the characters of a std::string.
use Prim.Native.String.{String}
use transit_session.Base.{Bool, false, Option, none, some, List, [], ◌∷◌, if◌then◌else◌, ◌≡◌}
use transit_session.Errors.{ErrorCode, failed}
use transit_session.Core.{Call, close, run_calls}
use transit_session.Core.Trace.{deliveries}
use transit_session.Websocket.{Bytes, Stream, WebSocketConfig, default_web_socket_config}
use transit_session.Websocket.Client.{WebSocketSession, client_derived, no_own}
use transit_session.Websocket.Client.Open.{Network, create}
use transit_session.Example.Options.Programs.{SessionOptions, parse_session_options}
use transit_session.Example.Programs.{
  Begun, returned, running, created, ReadHandler, on_read, first_calls,
}
use transit_session.Example.Echo.Connection.{
  Connection, ConnectionStep, client_calls, client_writes, client_fails, client_receives,
  server_writes, server_fails, server_receives, server_closes,
}
pub mod Kept
pub mod Returned
pub mod Printed
mod Tests

unfoldable pub session_config : SessionOptions → WebSocketConfig
session_config o = record default_web_socket_config {
  host = o.host;
  port = o.port;
  target = o.target;
  binary_mode = false;
}

-- The calls of the read handler; it also stops the context, and prints a message that came.
abbrev pub greeting_react : ReadHandler → ErrorCode → Bytes → List (Call Bytes ReadHandler ⊥)
greeting_react on_read read_ec bytes = if failed read_ec then [] else close ∷ []

abbrev pub greet : Bytes → WebSocketSession ReadHandler → WebSocketSession ReadHandler
greet message = run_calls client_derived no_own (first_calls (message ∷ []))

unfoldable pub begin_websocket_session :
    (String → Bytes) → Network → Stream → List String → Begun (WebSocketSession ReadHandler)
begin_websocket_session bytes_of network stream args = elim (parse_session_options args) [
  | none ↦ returned 1
  | some o ↦
      created (create network (session_config o) stream)
        (λ s. running (greet (bytes_of o.message) s))
]

-- After its first calls the program makes none but those of the handler.
abbrev pub Unasked : {c d : Connection ReadHandler} → ConnectionStep greeting_react c d → Type 0
Unasked (client_calls _) = ⊥
Unasked (client_writes _ _) = Unit {0}
Unasked (client_fails _ _ _ _) = Unit {0}
Unasked (client_receives _ _ _ _ _) = Unit {0}
Unasked (server_writes _ _) = Unit {0}
Unasked (server_fails _ _ _ _) = Unit {0}
Unasked (server_receives _ _ _ _ _) = Unit {0}
Unasked server_closes = Unit {0}

-- The run of the program and of the server that it is connected to, until a handler has stopped the
-- context.
pub data GreetingReach (c : Connection ReadHandler) : Connection ReadHandler → Type 0 where
  here : GreetingReach c c
  next :
      {d e : Connection ReadHandler}
      → GreetingReach c d
      → deliveries d.client.trace ≡ []
      → (s : ConnectionStep greeting_react d e) → Unasked s
      → GreetingReach c e
