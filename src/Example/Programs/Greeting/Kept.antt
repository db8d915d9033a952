-- ===== src/Example/Programs/Greeting/Kept.antt =====
-- What the program leaves alone once it runs: its handler stays, and it gives the session no further
-- message.
use transit_session.Base.{◌≡◌, some, List, [], if_cases, option_cases}
use transit_session.Errors.{ErrorCode, success, failed}
use transit_session.Core.{
  run_call, run_calls, close_session, schedule_operations, try_read, try_write, notify_read,
}
use transit_session.Core.Trace.{messages}
use transit_session.Core.Arrival.{Arrival}
use transit_session.Core.Invariant.{current_cases}
use transit_session.Websocket.{Bytes}
use transit_session.Websocket.Client.{
  WebSocketSession, client_derived, no_own, can_start_read, can_start_write, do_read, do_write,
  close_transport, write_completed, read_completed,
}
use transit_session.Example.Programs.{ReadHandler, on_read}
use transit_session.Example.Programs.Greeting.{greeting_react}

abbrev pub Kept : List Bytes → WebSocketSession ReadHandler → Type 0
Kept ms s = (s.read_handler ≡ some on_read) × (messages s.trace ≡ ms)

module _ (ms : List Bytes) where
  schedule_operations-Kept :
      (s : WebSocketSession ReadHandler)
      → Kept ms s
      → Kept ms (schedule_operations client_derived s)
  unfolding schedule_operations try_read try_write do_read do_write
  schedule_operations-Kept s v =
      let t = try_write client_derived s in
      let w : Kept ms t =
        if_cases (Kept ms) (can_start_write s)
          (λ _. current_cases (Kept ms) s.write_queue (λ _. v) (λ _ _ _. v)) (λ _. v) in
      if_cases (Kept ms) (can_start_read t) (λ _. w) (λ _. w)

  close_session-Kept :
      (s : WebSocketSession ReadHandler) → Kept ms s → Kept ms (close_session close_transport s)
  unfolding close_session close_transport
  close_session-Kept s v = if_cases (Kept ms) s.closed (λ _. v) (λ _. v)

  run_calls-Kept :
      (h : ReadHandler) (ec : ErrorCode) (bytes : Bytes) (s : WebSocketSession ReadHandler)
      → Kept ms s
      → Kept ms (run_calls client_derived no_own (greeting_react h ec bytes) s)
  unfolding run_calls run_call
  run_calls-Kept on_read ec bytes s v =
      if_cases (λ cs. Kept ms (run_calls client_derived no_own cs s)) (failed ec) (λ _. v)
        (λ _. close_session-Kept s v)

  notify_read-Kept :
      (ec : ErrorCode) (bytes : Bytes) (s : WebSocketSession ReadHandler)
      → Kept ms s
      → Kept ms (notify_read client_derived no_own greeting_react ec bytes s)
  unfolding notify_read
  notify_read-Kept ec bytes s v =
      option_cases (Kept ms) s.read_handler (λ _. v) (λ h _. run_calls-Kept h ec bytes _ v)

  pub write_completed-Kept :
      (ec : ErrorCode) (s : WebSocketSession ReadHandler)
      → Kept ms s
      → Kept ms (write_completed ec s)
  unfolding write_completed
  write_completed-Kept ec s v =
      if_cases (Kept ms) (failed ec) (λ _. close_session-Kept _ v)
        (λ _. schedule_operations-Kept _ v)

  pub read_completed-Kept :
      (a : Arrival) (s : WebSocketSession ReadHandler)
      → Kept ms s
      → Kept ms (read_completed greeting_react a s)
  unfolding read_completed
  read_completed-Kept a s v =
      if_cases (Kept ms) (failed a.ec) (λ _. close_session-Kept _ (notify_read-Kept a.ec [] _ v))
        (λ _. schedule_operations-Kept _ (notify_read-Kept success _ _ v))
