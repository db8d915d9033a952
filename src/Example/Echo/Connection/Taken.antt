-- ===== src/Example/Echo/Connection/Taken.antt =====
-- What the echo server session has received, after each of its steps.
use transit_session.Base.{
  ◌≡◌, ◌<◌, refl, sym, ap, ◌∙◌, some, List, [], ◌∷◌, ◌++◌, if◌then◌else◌, if_cases, if_both, arith,
}
use transit_session.Errors.{ErrorCode, failed, success}
use transit_session.Core.{
  Event, notified, accepted, read_started, read_finished, write_started, write_finished,
  transport_closed, transport_cancelled, duplex_changed, set_read_handler, start_reading,
  close_session,
}
use transit_session.Core.Trace.{pending_reads, deliveries}
use transit_session.Core.Arrival.{Arrival}
use transit_session.Core.Preserve.{run_calls-Preserves}
use transit_session.Core.Delivery.{
  handed, Delivered, deliveries-schedule_operations, deliveries-close_session,
}
use transit_session.Websocket.{Bytes}
use transit_session.Websocket.ServerSession
use transit_session.Websocket.ServerSession.{server_machine, server_derived, close_transport}
use transit_session.Websocket.ServerSession.Safety.{ServerInv}
use transit_session.Websocket.ServerSession.Progress.{
  server_derived-IsQuiet, run_server_call-Delivered, server_read-delivers,
}
use transit_session.Example.Echo.{echo, EchoSession, echo_react, attach_echo_behavior, received}
use transit_session.Example.Echo.Answers.{Answered}

-- The bytes of the results without an error.
abbrev pub successes : List (ErrorCode × Bytes) → List Bytes
successes [] = []
successes ((ec, b) ∷ r) = if failed ec then successes r else b ∷ successes r

successes-snoc :
    (xs : List (ErrorCode × Bytes)) (ec : ErrorCode) (b : Bytes)
    → successes (xs ++ (ec, b) ∷ []) ≡ (if failed ec then successes xs else successes xs ++ b ∷ [])
successes-snoc [] ec b = refl
successes-snoc ((e, c) ∷ xs) ec b = ground (arith, successes-snoc xs ec b)

pub received-deliveries : (t : List (Event Bytes Bytes)) → received t ≡ successes (deliveries t)
received-deliveries [] = refl
received-deliveries (notified ec b ∷ t) =
    ap (λ l. if failed ec then l else l ++ b ∷ []) (received-deliveries t)
    ∙ sym (successes-snoc (deliveries t) ec b)
received-deliveries (accepted w ∷ t) = received-deliveries t
received-deliveries (read_started ∷ t) = received-deliveries t
received-deliveries (read_finished ec ∷ t) = received-deliveries t
received-deliveries (write_started w ∷ t) = received-deliveries t
received-deliveries (write_finished ec ∷ t) = received-deliveries t
received-deliveries (transport_closed ∷ t) = received-deliveries t
received-deliveries (transport_cancelled ∷ t) = received-deliveries t
received-deliveries (duplex_changed b ∷ t) = received-deliveries t

pub successes-result :
    (ds : List (ErrorCode × Bytes)) (a : Arrival)
    → successes (ds ++ (if failed a.ec then (a.ec, []) else (success, a.bytes)) ∷ [])
      ≡ (if failed a.ec then successes ds else successes ds ++ a.bytes ∷ [])
successes-result ds a =
    if_both (λ (o : ErrorCode × Bytes) (l : List Bytes). successes (ds ++ o ∷ []) ≡ l) (failed a.ec)
      (λ e.
        successes-snoc ds a.ec [] ∙ ap (λ b. if b then successes ds else successes ds ++ [] ∷ []) e)
      (λ e. successes-snoc ds success a.bytes)

-- A read that completes hands the echo handler its message, if there is no error.
pub received-read :
    (a : Arrival) (s : EchoSession)
    → ServerInv s
    → Answered s
    → 0 < pending_reads s.trace
    → received (ServerSession.read_completed echo_react a s).trace
      ≡ (if failed a.ec then received s.trace else received s.trace ++ a.bytes ∷ [])
received-read a s v w h =
    let o : ErrorCode × Bytes = if failed a.ec then (a.ec, []) else (success, a.bytes) in
    let t = (ServerSession.read_completed echo_react a s).trace in
    received-deliveries t
    ∙ ap successes (
        server_read-delivers echo_react a s v (ground (arith, v.base.reading))
        ∙ ap (λ g. deliveries s.trace ++ handed g o) w.handler)
    ∙ successes-result (deliveries s.trace) a
    ∙ ap (λ l. if failed a.ec then l else l ++ a.bytes ∷ []) (sym (received-deliveries s.trace))

-- Nothing else hands anything over.
pub received-write :
    (ec : ErrorCode) (s : EchoSession)
    → received (ServerSession.write_completed ec s).trace ≡ received s.trace
unfolding ServerSession.write_completed
received-write ec s =
    let P : EchoSession → Type 0 = λ t. deliveries t.trace ≡ deliveries s.trace in
    let same : P (ServerSession.write_completed ec s) =
      if_cases P (failed ec) (λ _. deliveries-close_session server_derived-IsQuiet _)
        (λ _. deliveries-schedule_operations server_derived-IsQuiet _) in
    received-deliveries (ServerSession.write_completed ec s).trace
    ∙ ap successes same
    ∙ sym (received-deliveries s.trace)

pub received-close :
    (s : EchoSession) → received (close_session close_transport s).trace ≡ received s.trace
received-close s =
    received-deliveries (close_session close_transport s).trace
    ∙ ap successes (deliveries-close_session server_derived-IsQuiet s)
    ∙ sym (received-deliveries s.trace)

-- `attach_echo_behavior` hands nothing over.
pub attach-received :
    (s : EchoSession) → s.trace ≡ [] → received (attach_echo_behavior s).trace ≡ []
attach-received s e =
    let calls = set_read_handler (some echo) ∷ start_reading ∷ [] in
    let same : Delivered [] (attach_echo_behavior s) =
      run_calls-Preserves (server_derived-IsQuiet []) (run_server_call-Delivered []) calls s
        (ap deliveries e) in
    received-deliveries (attach_echo_behavior s).trace ∙ ap successes same
