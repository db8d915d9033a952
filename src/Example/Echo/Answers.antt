-- ===== src/Example/Echo/Answers.antt =====
-- What the echo server sends back.
use transit_session.Base.{
  ◌≡◌, refl, sym, ap, ◌∙◌, true, false, Bool, some, List, [], ◌∷◌, ◌++◌, if◌then◌else◌, if_cases,
  option_cases, append_assoc, append-nil,
}
use transit_session.Errors.{ErrorCode, failed, success}
use transit_session.Core.{
  Event, notified, write_finished, set_read_handler, start_reading, close, close_session, run_calls,
  run_call, log, schedule_operations, try_read, try_write, enqueue_write, notify_read,
  mark_write_finished,
}
use transit_session.Core.Trace.{messages}
use transit_session.Core.Machine.{Reach, Step}
use transit_session.Core.Arrival.{Arrival}
use transit_session.Core.Invariant.{current_cases}
use transit_session.Websocket.{Bytes}
use transit_session.Websocket.ServerSession.{
  can_start_read, can_start_write, do_read, do_write, close_transport, server_derived,
  run_server_call, write_completed, read_completed, server_machine,
}
use transit_session.Example.Echo.{
  EchoHandler, echo, EchoSession, echo_react, attach_echo_behavior, EchoReach, received,
}

-- The messages that were accepted are the front of those that were received, and all of them as long
-- as the session is open.
pub record Answered (s : EchoSession) : Type 0 where
  pub handler : s.read_handler ≡ some echo
  pub front : (rest : List Bytes) × (received s.trace ≡ messages s.trace ++ rest)
  pub all : s.closed ≡ false → received s.trace ≡ messages s.trace

do_read-Answered : (s : EchoSession) → Answered s → Answered (do_read s)
unfolding do_read
do_read-Answered s v = record { handler = v.handler; front = v.front; all = v.all }

do_write-Answered : (s : EchoSession) → Answered s → Answered (do_write s)
unfolding do_write
do_write-Answered s v =
    current_cases Answered s.write_queue (λ _. v)
      (λ w q e. record { handler = v.handler; front = v.front; all = v.all })

schedule_operations-Answered :
    (s : EchoSession) → Answered s → Answered (schedule_operations server_derived s)
unfolding schedule_operations try_read try_write
schedule_operations-Answered s v =
    let write_first : Answered (try_write server_derived s) =
      if_cases Answered (can_start_write s) (λ _. do_write-Answered s v) (λ _. v) in
    if_cases Answered (can_start_read (try_write server_derived s))
      (λ _. do_read-Answered _ write_first) (λ _. write_first)

close_session-Answered : (s : EchoSession) → Answered s → Answered (close_session close_transport s)
unfolding close_session close_transport
close_session-Answered s v =
    if_cases Answered s.closed (λ _. v)
      (λ _.
        if_cases Answered s.own.close_notified
          (λ _. record { handler = v.handler; front = v.front; all = λ e. absurd (cc) })
          (λ _. record { handler = v.handler; front = v.front; all = λ e. absurd (cc) }))

-- An error is given to the handler, which closes.
failed-received :
    (ec : ErrorCode) (bytes : Bytes) (t : List (Event Bytes Bytes))
    → failed ec ≡ true
    → received (notified ec bytes ∷ t) ≡ received t
failed-received ec bytes t f =
    ap (λ (b : Bool). if b then received t else received t ++ bytes ∷ []) f

success-received :
    (ec : ErrorCode) (bytes : Bytes) (t : List (Event Bytes Bytes))
    → failed ec ≡ false
    → received (notified ec bytes ∷ t) ≡ received t ++ bytes ∷ []
success-received ec bytes t f =
    ap (λ (b : Bool). if b then received t else received t ++ bytes ∷ []) f

failure-Answered :
    (ec : ErrorCode) (bytes : Bytes) (s : EchoSession)
    → failed ec ≡ true
    → Answered s
    → Answered (log (notified ec bytes) s)
failure-Answered ec bytes s f v =
    let same = failed-received ec bytes s.trace f in
    let (rest, e) = v.front in
    record { handler = v.handler; front = (rest, same ∙ e); all = λ c. same ∙ v.all c }

-- A message that arrives is sent while the session is open, and dropped when it is closed.
success-Answered :
    (ec : ErrorCode) (bytes : Bytes) (s : EchoSession)
    → failed ec ≡ false
    → Answered s
    → Answered (enqueue_write server_derived bytes (log (notified ec bytes) s))
unfolding enqueue_write
success-Answered ec bytes s f v =
    let more = success-received ec bytes s.trace f in
    if_cases Answered s.closed
      (λ c.
        let (rest, e) = v.front in
        record {
          handler = v.handler;
          front = (
            rest ++ bytes ∷ [],
            more
                ∙ ap (λ (l : List Bytes). l ++ bytes ∷ []) e
                ∙ append_assoc (messages s.trace) rest (bytes ∷ []),
          );
          all = λ d. absurd (cc);
        })
      (λ c.
        let e = more ∙ ap (λ (l : List Bytes). l ++ bytes ∷ []) (v.all c) in
        schedule_operations-Answered _
          (record { handler = v.handler; front = ([], e ∙ sym (append-nil _)); all = λ _. e }))

-- The handler runs on a result.
called-Answered :
    (h : EchoHandler) (ec : ErrorCode) (bytes : Bytes) (s : EchoSession)
    → Answered s
    → Answered (
        run_calls server_derived run_server_call
          (echo_react h ec bytes)
          (log (notified ec bytes) s))
unfolding run_calls run_call
called-Answered echo ec bytes s v =
    if_cases
      (λ cs. Answered (run_calls server_derived run_server_call cs (log (notified ec bytes) s)))
      (failed ec) (λ f. close_session-Answered _ (failure-Answered ec bytes s f v))
      (λ f. success-Answered ec bytes s f v)

notify_read-Answered :
    (ec : ErrorCode) (bytes : Bytes) (s : EchoSession)
    → Answered s
    → Answered (notify_read server_derived run_server_call echo_react ec bytes s)
unfolding notify_read
notify_read-Answered ec bytes s v =
    option_cases Answered s.read_handler (λ e. absurd (cc)) (λ h _. called-Answered h ec bytes s v)

write_completed-Answered :
    (ec : ErrorCode) (s : EchoSession) → Answered s → Answered (write_completed ec s)
unfolding write_completed
write_completed-Answered ec s v =
    let done : Answered (log (write_finished ec) (mark_write_finished s)) = record {
      handler = v.handler;
      front = v.front;
      all = v.all;
    } in
    if_cases Answered (failed ec) (λ _. close_session-Answered _ done)
      (λ _.
        schedule_operations-Answered _
          (record { handler = v.handler; front = v.front; all = v.all }))

read_completed-Answered :
    (a : Arrival) (s : EchoSession) → Answered s → Answered (read_completed echo_react a s)
unfolding read_completed
read_completed-Answered a s v =
    if_cases Answered (failed a.ec)
      (λ _. close_session-Answered _ (
        notify_read-Answered a.ec [] _
          (record { handler = v.handler; front = v.front; all = v.all })))
      (λ _. schedule_operations-Answered _ (
        notify_read-Answered success _ _
          (record { handler = v.handler; front = v.front; all = v.all })))

pub EchoReach-Answered : {s t : EchoSession} → Answered s → EchoReach s t → Answered t
EchoReach-Answered v EchoReach.here = v
EchoReach-Answered v (EchoReach.reads r a h k) =
    read_completed-Answered a _ (EchoReach-Answered v r)
EchoReach-Answered v (EchoReach.writes r ec h) =
    write_completed-Answered ec _ (EchoReach-Answered v r)
EchoReach-Answered v (EchoReach.closes r) = close_session-Answered _ (EchoReach-Answered v r)

-- Every step of the echo server is a step of the session.
pub EchoReach-Reach :
    {r s t : EchoSession}
    → Reach (server_machine echo_react) r s
    → EchoReach s t
    → Reach (server_machine echo_react) r t
unfolding run_call
EchoReach-Reach q EchoReach.here = q
EchoReach-Reach q (EchoReach.reads r a h k) =
    Reach.next (EchoReach-Reach q r) (Step.read_completes a h k)
EchoReach-Reach q (EchoReach.writes r ec h) =
    Reach.next (EchoReach-Reach q r) (Step.write_completes ec h)
EchoReach-Reach q (EchoReach.closes r) = Reach.next (EchoReach-Reach q r) (Step.calls close)

pub attach-Reach : (s : EchoSession) → Reach (server_machine echo_react) s (attach_echo_behavior s)
unfolding run_calls
attach-Reach s =
    Reach.next (Reach.next Reach.here (Step.calls (set_read_handler (some echo))))
      (Step.calls start_reading)

pub attach-Answered : (s : EchoSession) → s.trace ≡ [] → Answered (attach_echo_behavior s)
unfolding run_calls run_call
attach-Answered s e =
    let none_yet : received s.trace ≡ messages s.trace = ap received e ∙ sym (ap messages e) in
    let none_left : received s.trace ≡ messages s.trace ++ [] = none_yet ∙ sym (append-nil _) in
    if_cases Answered s.closed
      (λ _. record { handler = refl; front = ([], none_left); all = λ _. none_yet })
      (λ _.
        schedule_operations-Answered _
          (record { handler = refl; front = ([], none_left); all = λ _. none_yet }))
