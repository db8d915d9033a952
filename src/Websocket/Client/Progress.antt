-- ===== src/Websocket/Client/Progress.antt =====
-- The WebSocket client loses no wake-up, and hands over each message once and whole.
use transit_session.Base.{
  ◌≡◌, refl, ap, ◌∙◌, inl, inr, true, List, [], ◌++◌, if_cases, if_both, if◌then◌else◌, length,
}
use transit_session.Errors.{ErrorCode, success, failed}
use transit_session.Core.{Call, close_session}
use transit_session.Core.Trace.{deliveries}
use transit_session.Core.Machine.{Reach}
use transit_session.Core.Arrival.{Arrival}
use transit_session.Core.Invariant.{current_cases}
use transit_session.Core.Settled.{
  Sending, Settled, IsEager, schedule_operations-Settled, close_session-Settled,
}
use transit_session.Core.Settled
use transit_session.Core.Delivery.{
  handed, Delivered, IsQuiet, deliveries-schedule_operations, deliveries-close_session,
  deliveries-notify_read,
}
use transit_session.Websocket.{Bytes, message_of, message_of-length}
use transit_session.Websocket.Client.{
  WebSocketSession, can_start_read, can_start_write, do_read, do_write, close_transport,
  client_derived, no_own, write_completed, read_completed, client_machine,
}
use transit_session.Websocket.Client.Safety.{ClientInv}

module _ {H : Type 0} where
  client_derived-IsEager : IsEager (client_derived {H = H})
  unfolding can_start_read can_start_write do_read do_write close_transport
  client_derived-IsEager = record {
    write_test = λ s. refl;
    read_test = λ s. refl;
    writes = λ s. current_cases Sending s.write_queue (λ e. inr (inr e)) (λ w q e. inr (inl refl));
    reads = λ s v. record { sending = v; reading = inr (inl refl) };
    closes = λ s. refl;
  }

  write_completed-Settled :
      (ec : ErrorCode) (s : WebSocketSession H) → Settled (write_completed ec s)
  unfolding write_completed
  write_completed-Settled ec s =
      if_cases Settled (failed ec) (λ _. close_session-Settled client_derived-IsEager _)
        (λ _. schedule_operations-Settled client_derived-IsEager _)

  pub client_derived-IsQuiet : IsQuiet (client_derived {H = H})
  unfolding do_read do_write close_session close_transport
  client_derived-IsQuiet k = record {
    do_read = λ s p _. p;
    do_write = λ s p _. current_cases (Delivered k) s.write_queue (λ _. p) (λ w q e. p);
    close = λ s p. if_cases (Delivered k) s.closed (λ _. p) (λ _. p);
    accept = λ s w p _. p;
    enable = λ s p _. p;
    disable = λ s p. p;
    handle = λ s h p. p;
  }

  module _ (react : H → ErrorCode → Bytes → List (Call Bytes H ⊥)) where
    read_completed-Settled :
        (a : Arrival) (s : WebSocketSession H) → Settled (read_completed react a s)
    unfolding read_completed
    read_completed-Settled a s =
        if_cases Settled (failed a.ec) (λ _. close_session-Settled client_derived-IsEager _)
          (λ _. schedule_operations-Settled client_derived-IsEager _)

    pub client_session-Settled :
        {s t : WebSocketSession H} → Settled s → Reach (client_machine react) s t → Settled t
    client_session-Settled =
        Settled.Reach-Settled (client_machine react) client_derived-IsEager (λ x s v. v)
          read_completed-Settled write_completed-Settled

    -- The completion of a read under way, from a state that satisfies the invariant, adds one
    -- result to what the handler that is set was given, and nothing without a handler: the error
    -- with no bytes, or success with exactly the message that arrived; whatever calls the handler
    -- makes.
    pub client_read-delivers :
        (a : Arrival) (s : WebSocketSession H)
        → ClientInv s
        → s.read_in_progress ≡ true
        → deliveries (read_completed react a s).trace
          ≡ deliveries s.trace
            ++ handed s.read_handler (if failed a.ec then (a.ec, []) else (success, a.bytes))
    unfolding read_completed
    client_read-delivers a s v h =
        if_both Gives (failed a.ec)
          (λ _.
            deliveries-close_session client_derived-IsQuiet _
            ∙ deliveries-notify_read client_derived-IsQuiet no_own (λ k x t p. p) react a.ec [] _)
          (λ _.
            deliveries-schedule_operations client_derived-IsQuiet _
            ∙ deliveries-notify_read client_derived-IsQuiet no_own (λ k x t p. p) react success _ _
            ∙ ap (λ (b : Bytes). deliveries s.trace ++ handed s.read_handler (success, b)) whole)
      where
        Gives : WebSocketSession H → ErrorCode × Bytes → Type 0
        Gives t o = deliveries t.trace ≡ deliveries s.trace ++ handed s.read_handler o

        whole : message_of (length a.bytes) (s.own.read_buffer ++ a.bytes) ≡ a.bytes
        whole =
            ap (λ (b : Bytes). message_of (length a.bytes) (b ++ a.bytes)) (v.waiting h)
            ∙ message_of-length a.bytes
