-- ===== src/Websocket/ServerSession/Progress.antt =====
-- The WebSocket server session loses no wake-up, and hands over each message once and whole.
use transit_session.Base.{
  ◌≡◌, refl, ap, ◌∙◌, inl, inr, true, List, [], ◌++◌, arith, if_cases, if_both, if◌then◌else◌,
  length,
}
use transit_session.Errors.{ErrorCode, success, failed}
use transit_session.Core.{Call, close_session}
use transit_session.Core.Trace.{deliveries}
use transit_session.Core.Machine.{Reach}
use transit_session.Core.Arrival.{Arrival}
use transit_session.Core.Invariant.{current_cases}
use transit_session.Core.Settled.{
  Sending, Settled, IsEager, schedule_operations-Settled, close_session-Settled,
}
use transit_session.Core.Settled
use transit_session.Core.Delivery.{
  handed, Delivered, IsQuiet, deliveries-schedule_operations, deliveries-close_session,
  deliveries-notify_read,
}
use transit_session.Websocket.{Bytes, message_of, message_of-length}
use transit_session.Websocket.ServerSession.{
  ServerCall, set_close_handler, WebSocketServerSession, can_start_read, can_start_write, do_read,
  do_write, close_transport, server_derived, run_server_call, write_completed, read_completed,
  server_machine,
}
use transit_session.Websocket.ServerSession.Safety.{ServerInv}

module _ {H : Type 0} where
  server_derived-IsEager : IsEager (server_derived {H = H})
  unfolding can_start_read can_start_write do_read do_write close_transport
  server_derived-IsEager = record {
    write_test = λ s. refl;
    read_test = λ s. refl;
    writes = λ s. current_cases Sending s.write_queue (λ e. inr (inr e)) (λ w q e. inr (inl refl));
    reads = λ s v. record { sending = v; reading = inr (inl refl) };
    closes = λ s. ground arith;
  }

  write_completed-Settled :
      (ec : ErrorCode) (s : WebSocketServerSession H) → Settled (write_completed ec s)
  unfolding write_completed
  write_completed-Settled ec s =
      if_cases Settled (failed ec) (λ _. close_session-Settled server_derived-IsEager _)
        (λ _. schedule_operations-Settled server_derived-IsEager _)

  pub server_derived-IsQuiet : IsQuiet (server_derived {H = H})
  unfolding do_read do_write close_session close_transport
  server_derived-IsQuiet k = record {
    do_read = λ s p _. p;
    do_write = λ s p _. current_cases (Delivered k) s.write_queue (λ _. p) (λ w q e. p);
    close = λ s p.
        if_cases (Delivered k) s.closed (λ _. p)
          (λ _. if_cases (Delivered k) s.own.close_notified (λ _. p) (λ _. p));
    accept = λ s w p _. p;
    enable = λ s p _. p;
    disable = λ s p. p;
    handle = λ s h p. p;
  }

  run_server_call-Settled :
      (x : ServerCall) (s : WebSocketServerSession H) → Settled s → Settled (run_server_call x s)
  unfolding run_server_call
  run_server_call-Settled (set_close_handler b) s v = record {
    sending = v.sending;
    reading = v.reading;
  }

  pub run_server_call-Delivered :
      (k : List (ErrorCode × Bytes)) (x : ServerCall) (s : WebSocketServerSession H)
      → Delivered k s
      → Delivered k (run_server_call x s)
  unfolding run_server_call
  run_server_call-Delivered k (set_close_handler b) s p = p

  module _ (react : H → ErrorCode → Bytes → List (Call Bytes H ServerCall)) where
    read_completed-Settled :
        (a : Arrival) (s : WebSocketServerSession H) → Settled (read_completed react a s)
    unfolding read_completed
    read_completed-Settled a s =
        if_cases Settled (failed a.ec) (λ _. close_session-Settled server_derived-IsEager _)
          (λ _. schedule_operations-Settled server_derived-IsEager _)

    pub server_session-Settled :
        {s t : WebSocketServerSession H} → Settled s → Reach (server_machine react) s t → Settled t
    server_session-Settled =
        Settled.Reach-Settled (server_machine react) server_derived-IsEager run_server_call-Settled
          read_completed-Settled write_completed-Settled

    -- The completion of a read under way, from a state that satisfies the invariant, adds one
    -- result to what the handler that is set was given, and nothing without a handler: the error
    -- with no bytes, or success with exactly the message that arrived; whatever calls the handler
    -- makes.
    pub server_read-delivers :
        (a : Arrival) (s : WebSocketServerSession H)
        → ServerInv s
        → s.read_in_progress ≡ true
        → deliveries (read_completed react a s).trace
          ≡ deliveries s.trace
            ++ handed s.read_handler (if failed a.ec then (a.ec, []) else (success, a.bytes))
    unfolding read_completed
    server_read-delivers a s v h =
        if_both Gives (failed a.ec)
          (λ _.
            deliveries-close_session server_derived-IsQuiet _
            ∙ deliveries-notify_read server_derived-IsQuiet run_server_call
                run_server_call-Delivered react a.ec [] _)
          (λ _.
            deliveries-schedule_operations server_derived-IsQuiet _
            ∙ deliveries-notify_read server_derived-IsQuiet run_server_call
                run_server_call-Delivered react success _ _
            ∙ ap (λ (b : Bytes). deliveries s.trace ++ handed s.read_handler (success, b)) whole)
      where
        Gives : WebSocketServerSession H → ErrorCode × Bytes → Type 0
        Gives t o = deliveries t.trace ≡ deliveries s.trace ++ handed s.read_handler o

        whole : message_of (length a.bytes) (s.own.read_buffer ++ a.bytes) ≡ a.bytes
        whole =
            ap (λ (b : Bytes). message_of (length a.bytes) (b ++ a.bytes)) (v.waiting h)
            ∙ message_of-length a.bytes
