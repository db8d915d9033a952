-- ===== src/Example/Programs/Greeting/Returned.antt =====
-- What the client's handler was given, and that it has printed what has come back, after each step.
use transit_session.Base.{
  ◌<◌, ◌≡◌, refl, sym, ap, ◌∙◌, Bool, List, [], ◌∷◌, ◌++◌, arith, if_cases, if◌then◌else◌,
}
use transit_session.Errors.{ErrorCode, success, failed}
use transit_session.Core.{
  construct, run_call, run_calls, schedule_operations, enqueue_write, try_read, try_write,
}
use transit_session.Core.Trace.{deliveries, pending_reads}
use transit_session.Core.Arrival.{Arrival}
use transit_session.Core.Delivery.{handed, deliveries-schedule_operations, deliveries-close_session}
use transit_session.Websocket.{Bytes}
use transit_session.Websocket.Client.{
  WebSocketSession, ClientState, can_start_read, can_start_write, do_read, do_write,
  write_completed, read_completed,
}
use transit_session.Websocket.Client.Safety.{ClientInv}
use transit_session.Websocket.Client.Progress.{client_derived-IsQuiet, client_read-delivers}
use transit_session.Example.Echo.{received}
use transit_session.Example.Echo.Connection.{
  Connection, ConnectionStep, client_calls, client_writes, client_fails, client_receives,
  server_writes, server_fails, server_receives, server_closes,
}
use transit_session.Example.Echo.Connection.Taken.{successes, received-deliveries, successes-result}
use transit_session.Example.Programs.{ReadHandler}
use transit_session.Example.Programs.Greeting.{greeting_react, greet, Unasked}
use transit_session.Example.Programs.Greeting.Kept.{Kept, write_completed-Kept, read_completed-Kept}

-- A read that completes has its message printed, if there is no error.
received-read :
    (ms : List Bytes) (a : Arrival) (s : WebSocketSession ReadHandler)
    → ClientInv s
    → Kept ms s
    → 0 < pending_reads s.trace
    → received (read_completed greeting_react a s).trace
      ≡ (if failed a.ec then received s.trace else received s.trace ++ a.bytes ∷ [])
received-read ms a s v w h =
    let o : ErrorCode × Bytes = if failed a.ec then (a.ec, []) else (success, a.bytes) in
    let t = (read_completed greeting_react a s).trace in
    received-deliveries t
    ∙ ap successes (
        client_read-delivers greeting_react a s v (ground (arith, v.base.reading))
        ∙ ap (λ g. deliveries s.trace ++ handed g o) w.0)
    ∙ successes-result (deliveries s.trace) a
    ∙ ap (λ l. if failed a.ec then l else l ++ a.bytes ∷ []) (sym (received-deliveries s.trace))

received-write :
    (ec : ErrorCode) (s : WebSocketSession ReadHandler)
    → received (write_completed ec s).trace ≡ received s.trace
unfolding write_completed
received-write ec s =
    let P : WebSocketSession ReadHandler → Type 0 = λ t. deliveries t.trace ≡ deliveries s.trace in
    let same : P (write_completed ec s) =
      if_cases P (failed ec) (λ _. deliveries-close_session client_derived-IsQuiet _)
        (λ _. deliveries-schedule_operations client_derived-IsQuiet _) in
    received-deliveries (write_completed ec s).trace
    ∙ ap successes same
    ∙ sym (received-deliveries s.trace)

-- What has come back was printed.
pub record Greeted (ms : List Bytes) (c : Connection ReadHandler) : Type 0 where
  pub kept : Kept ms c.client
  pub printed : received c.client.trace ≡ c.to_client

pub Step-Greeted :
    {ms : List Bytes} {c d : Connection ReadHandler}
    → ClientInv c.client
    → Greeted ms c
    → (s : ConnectionStep greeting_react c d) → Unasked s
    → Greeted ms d
Step-Greeted i v (client_calls x) u = absurd u
Step-Greeted {ms} {c} i v (client_writes ec h) u = record {
  kept = write_completed-Kept ms ec c.client v.kept;
  printed = received-write ec c.client ∙ v.printed;
}
Step-Greeted {ms} {c} i v (client_fails a h k f) u = record {
  kept = read_completed-Kept ms a c.client v.kept;
  printed =
      received-read ms a c.client i v.kept h
      ∙ ap
          (λ (b : Bool).
            if b then received c.client.trace else received c.client.trace ++ a.bytes ∷ [])
          f
      ∙ v.printed;
}
Step-Greeted {ms} {c} i v (client_receives a h k f e) u = record {
  kept = read_completed-Kept ms a c.client v.kept;
  printed =
      received-read ms a c.client i v.kept h
      ∙ ap
          (λ (b : Bool).
            if b then received c.client.trace else received c.client.trace ++ a.bytes ∷ [])
          f
      ∙ ap (λ l. l ++ a.bytes ∷ []) v.printed;
}
Step-Greeted i v (server_writes ec h) u = record { kept = v.kept; printed = v.printed }
Step-Greeted i v (server_fails a h k f) u = record { kept = v.kept; printed = v.printed }
Step-Greeted i v (server_receives a h k f e) u = record { kept = v.kept; printed = v.printed }
Step-Greeted i v server_closes u = record { kept = v.kept; printed = v.printed }

-- The session after the first calls.
pub greet-Kept :
    (message : Bytes) (d : ClientState)
    → Kept (message ∷ []) (greet message (construct d))
      × (received (greet message (construct d)).trace ≡ [])
unfolding construct run_call run_calls schedule_operations enqueue_write try_read try_write
    can_start_read can_start_write do_read do_write
greet-Kept message d = ((refl, refl), refl)
