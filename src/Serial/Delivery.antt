-- ===== src/Serial/Delivery.antt =====
-- What a serial session hands to its read handler, and the buffer that it reads into.
use transit_session.Base.{
  ◌≡◌, refl, ap, ◌∙◌, true, false, List, [], ◌∷◌, ◌++◌, ◌&&◌, ◌||◌, ◌==◌, arith, if_cases, if_both,
  if◌then◌else◌, take, length,
}
use transit_session.Errors.{ErrorCode, success, failed, is_aborted}
use transit_session.Core.{
  Call, close_session, schedule_operations, notify_read, run_call, accepted, log, send,
  enqueue_write, try_write, try_read,
}
use transit_session.Core.Trace.{deliveries}
use transit_session.Core.Preserve.{Preserves, schedule_operations-Preserves, run_call-Preserves}
use transit_session.Core.Arrival.{Arrival, fill, take-fill}
use transit_session.Core.Invariant.{current_cases}
use transit_session.Core.Delivery.{
  handed, Delivered, IsQuiet, deliveries-schedule_operations, deliveries-close_session,
  deliveries-notify_read,
}
use transit_session.Serial.{is_half, half_duplex}
use transit_session.Serial.Session.{
  Bytes, SerialSession, SerialCall, set_duplex_mode, set_read_buffer_size, can_start_read,
  can_start_write, do_read, do_write, close_transport, serial_derived, run_serial_call,
  read_completed,
}
use transit_session.Serial.Invariant.{SerialInv}
use transit_session.Serial.Safety.{read_ended}

module _ {H : Type 0} where
  serial_derived-IsQuiet : IsQuiet (serial_derived {H = H})
  unfolding do_read do_write close_session close_transport
  serial_derived-IsQuiet k = record {
    do_read = λ s p _. p;
    do_write = λ s p _.
        current_cases (Delivered k) s.write_queue (λ _. p)
          (λ w q e.
            if_cases (Delivered k) (is_half s.own.duplex_mode && s.read_in_progress) (λ _. p)
              (λ _. p));
    close = λ s p. if_cases (Delivered k) s.closed (λ _. p) (λ _. p);
    accept = λ s w p _. p;
    enable = λ s p _. p;
    disable = λ s p. p;
    handle = λ s h p. p;
  }

  run_serial_call-Delivered :
      (k : List (ErrorCode × Bytes)) (x : SerialCall) (s : SerialSession H)
      → Delivered k s
      → Delivered k (run_serial_call x s)
  unfolding run_serial_call
  run_serial_call-Delivered k (set_duplex_mode mode) s p =
      schedule_operations-Preserves (serial_derived-IsQuiet k) _ p
  run_serial_call-Delivered k (set_read_buffer_size n) s p =
      if_cases (Delivered k) (s.read_in_progress || n == 0) (λ _. p) (λ _. p)

  module _ (react : H → ErrorCode → Bytes → List (Call Bytes H SerialCall)) where
    -- The completion of a read, from a state that satisfies the invariant, adds one result to what
    -- the handler that is set was given, and nothing without a handler: the error with no bytes, or
    -- success with exactly the bytes that arrived; whatever calls the handler makes.
    pub serial_read-delivers :
        (a : Arrival) (s : SerialSession H)
        → SerialInv s
        → deliveries (read_completed react a s).trace
          ≡ deliveries s.trace
            ++ handed s.read_handler (if failed a.ec then (a.ec, []) else (success, a.bytes))
    unfolding read_completed
    serial_read-delivers a s v =
        if_cases (λ t. Gives t outcome) (s.own.read_pause_for_write && is_aborted a.ec)
          (λ e. absurd (ground (arith, v.unpaused)))
          (λ _.
            if_both Gives (failed a.ec)
              (λ _. deliveries-close_session serial_derived-IsQuiet _ ∙ notified_with a.ec [])
              (λ _.
                deliveries-schedule_operations serial_derived-IsQuiet _
                ∙ notified_with success (take (length a.bytes) (fill a.bytes s.own.read_buffer))
                ∙ ap (λ (b : Bytes). deliveries s.trace ++ handed s.read_handler (success, b))
                    (take-fill a.bytes s.own.read_buffer)))
      where
        outcome : ErrorCode × Bytes
        outcome = if failed a.ec then (a.ec, []) else (success, a.bytes)

        Gives : SerialSession H → ErrorCode × Bytes → Type 0
        Gives t o = deliveries t.trace ≡ deliveries s.trace ++ handed s.read_handler o

        notified_with :
            (ec : ErrorCode) (value : Bytes)
            → deliveries
                (notify_read serial_derived run_serial_call react ec value (read_ended a s)).trace
              ≡ deliveries s.trace ++ handed s.read_handler (ec, value)
        notified_with ec value =
            deliveries-notify_read serial_derived-IsQuiet run_serial_call run_serial_call-Delivered
              react ec value (read_ended a s)

  -- What stays as it is while a read is under way.
  abbrev Held : SerialSession H → SerialSession H → Type 0
  Held s t = (t.read_in_progress ≡ true) × (t.own.read_buffer ≡ s.own.read_buffer)

  serial_derived-Held : (s : SerialSession H) → Preserves (serial_derived {H = H}) (Held s)
  unfolding do_read do_write close_session close_transport
  serial_derived-Held s = record {
    do_read = λ t p _. (refl, p.1);
    do_write = λ t p _.
        current_cases (Held s) t.write_queue (λ _. p)
          (λ w q e.
            if_cases (Held s) (is_half t.own.duplex_mode && t.read_in_progress) (λ _. (p.0, p.1))
              (λ _. (p.0, p.1)));
    close = λ t p. if_cases (Held s) t.closed (λ _. p) (λ _. (p.0, p.1));
    accept = λ t w p _. (p.0, p.1);
    enable = λ t p _. (p.0, p.1);
    disable = λ t p. (p.0, p.1);
    handle = λ t h p. (p.0, p.1);
  }

  run_serial_call-Held :
      (s : SerialSession H) (x : SerialCall) (t : SerialSession H)
      → Held s t
      → Held s (run_serial_call x t)
  unfolding run_serial_call
  run_serial_call-Held s (set_duplex_mode mode) t p =
      schedule_operations-Preserves (serial_derived-Held s) _ (p.0, p.1)
  run_serial_call-Held s (set_read_buffer_size n) t p = ground arith

  -- No public call ends a read that is under way, or resizes or changes the buffer that it fills.
  pub run_call-buffer :
      (c : Call Bytes H SerialCall) (s : SerialSession H)
      → s.read_in_progress ≡ true
      → let t = run_call serial_derived run_serial_call c s in
        (t.read_in_progress ≡ true) × (t.own.read_buffer ≡ s.own.read_buffer)
  run_call-buffer c s h =
      run_call-Preserves (serial_derived-Held s) (run_serial_call-Held s) c s (h, refl)

  -- In half-duplex a message that is sent, from a state of an open session that satisfies the
  -- invariant, while a read is under way is only queued: no write is started, and the read is not
  -- cancelled for it.
  pub send_waits :
      (w : Bytes) (s : SerialSession H)
      → SerialInv s
      → s.own.duplex_mode ≡ half_duplex
      → s.read_in_progress ≡ true
      → s.closed ≡ false
      → run_call serial_derived run_serial_call (send w) s
        ≡ log (accepted w) (record s { write_queue = s.write_queue ++ w ∷ [] })
  unfolding run_call enqueue_write schedule_operations try_write try_read can_start_write
      can_start_read
  send_waits w s v m h c = ground arith
