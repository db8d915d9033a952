-- ===== src/Serial/Liveness.antt =====
-- The serial session loses no wake-up, in half-duplex neither.
use transit_session.Base.{
  ◌<◌, ◌≡◌, refl, ◌⊎◌, inl, inr, ◌||◌, ◌&&◌, ◌==◌, true, false, List, [], arith, if_cases, length,
  take,
}
use transit_session.Errors.{ErrorCode, success, failed, is_aborted}
use transit_session.Core.{
  Call, set_read_handler, start_reading, stop_reading, close, send, own_call, close_session,
  try_write, try_read, schedule_operations, enqueue_write, run_call,
}
use transit_session.Core.Machine.{Step, calls, read_completes, write_completes, Reach, here, next}
use transit_session.Core.Arrival.{Arrival, fill}
use transit_session.Core.Trace.{pending_reads}
use transit_session.Serial.{is_half}
use transit_session.Serial.Session.{
  Bytes, SerialSession, SerialCall, set_duplex_mode, set_read_buffer_size, can_start_read,
  can_start_write, do_read, do_write, close_transport, serial_derived, run_serial_call,
  write_completed, read_completed, serial_machine,
}
use transit_session.Serial.Invariant.{SerialInv}
use transit_session.Serial.Safety.{
  read_ended, end_read-SerialInv, notify_read-SerialInv, serial_session-SerialInv,
}

module _ {H : Type 0} where
  -- What is queued is being sent, unless in half-duplex a read is under way.
  abbrev pub Sending : SerialSession H → Type 0
  Sending s =
      (s.closed ≡ true)
      ⊎ ((s.write_in_progress ≡ true)
          ⊎ ((s.write_queue ≡ [])
              ⊎ ((is_half s.own.duplex_mode ≡ true) × (s.read_in_progress ≡ true))))

  -- A read is under way if reading is on, unless in half-duplex a write is.
  abbrev pub Reading : SerialSession H → Type 0
  Reading s =
      (s.closed ≡ true)
      ⊎ ((s.read_in_progress ≡ true)
          ⊎ ((s.read_enabled ≡ false)
              ⊎ ((is_half s.own.duplex_mode ≡ true) × (s.write_in_progress ≡ true))))

  pub record SerialSettled (s : SerialSession H) : Type 0 where
    pub sending : Sending s
    pub reading : Reading s

  try_write-Sending :
      (s : SerialSession H)
      → s.own.read_pause_for_write ≡ false
      → Sending (try_write serial_derived s)
  unfolding try_write can_start_write do_write
  try_write-Sending s h = ground arith

  try_read-SerialSettled :
      (s : SerialSession H)
      → s.own.read_pause_for_write ≡ false
      → Sending s
      → SerialSettled (try_read serial_derived s)
  unfolding try_read can_start_read do_read
  try_read-SerialSettled s h v = record { sending = ground arith; reading = ground arith }

  try_write-unpaused :
      (s : SerialSession H)
      → s.own.read_pause_for_write ≡ false
      → (try_write serial_derived s).own.read_pause_for_write ≡ false
  unfolding try_write can_start_write do_write
  try_write-unpaused s h = ground arith

  schedule-SerialSettled :
      (s : SerialSession H)
      → s.own.read_pause_for_write ≡ false
      → SerialSettled (schedule_operations serial_derived s)
  unfolding schedule_operations
  schedule-SerialSettled s h =
      try_read-SerialSettled (try_write serial_derived s) (try_write-unpaused s h)
        (try_write-Sending s h)

  close-SerialSettled : (s : SerialSession H) → SerialSettled (close_session close_transport s)
  unfolding close_session close_transport
  close-SerialSettled s = record { sending = ground arith; reading = ground arith }

  run_serial_call-SerialSettled :
      (x : SerialCall) (s : SerialSession H)
      → s.own.read_pause_for_write ≡ false
      → SerialSettled s
      → SerialSettled (run_serial_call x s)
  unfolding run_serial_call
  run_serial_call-SerialSettled (set_duplex_mode mode) s h v = schedule-SerialSettled _ h
  run_serial_call-SerialSettled (set_read_buffer_size n) s h v =
      if_cases SerialSettled (s.read_in_progress || n == 0) (λ _. v)
        (λ _. record { sending = v.sending; reading = v.reading })

  run_call-SerialSettled :
      (c : Call Bytes H SerialCall) (s : SerialSession H)
      → s.own.read_pause_for_write ≡ false
      → SerialSettled s
      → SerialSettled (run_call serial_derived run_serial_call c s)
  unfolding run_call enqueue_write
  run_call-SerialSettled (set_read_handler f) s h v = record {
    sending = v.sending;
    reading = v.reading;
  }
  run_call-SerialSettled start_reading s h v =
      if_cases SerialSettled s.closed (λ _. v) (λ _. schedule-SerialSettled _ h)
  run_call-SerialSettled stop_reading s h v = record {
    sending = v.sending;
    reading = inr (inr (inl refl));
  }
  run_call-SerialSettled close s h v = close-SerialSettled s
  run_call-SerialSettled (send w) s h v =
      if_cases SerialSettled s.closed (λ _. v) (λ _. schedule-SerialSettled _ h)
  run_call-SerialSettled (own_call x) s h v = run_serial_call-SerialSettled x s h v

  write_completed-SerialSettled :
      (ec : ErrorCode) (s : SerialSession H)
      → s.own.read_pause_for_write ≡ false
      → SerialSettled (write_completed ec s)
  unfolding write_completed
  write_completed-SerialSettled ec s h =
      if_cases SerialSettled (failed ec) (λ _. close-SerialSettled _)
        (λ _. schedule-SerialSettled _ h)

  module _ (react : H → ErrorCode → Bytes → List (Call Bytes H SerialCall)) where
    read_completed-SerialSettled :
        (a : Arrival) (s : SerialSession H)
        → SerialInv s
        → 0 < pending_reads s.trace
        → SerialSettled (read_completed react a s)
    unfolding read_completed
    read_completed-SerialSettled a s v h =
        if_cases SerialSettled (s.own.read_pause_for_write && is_aborted a.ec)
          (λ _. schedule-SerialSettled _ v.unpaused)
          (λ _.
            if_cases SerialSettled (failed a.ec) (λ _. close-SerialSettled _)
              (λ _.
                schedule-SerialSettled _
                  (notify_read-SerialInv react success
                    (take (length a.bytes) (fill a.bytes s.own.read_buffer)) (read_ended a s)
                    (end_read-SerialInv a s v h) tt).unpaused))

    pub Step-SerialSettled :
        {s t : SerialSession H}
        → Step (serial_machine react) s t
        → SerialInv s
        → SerialSettled s
        → SerialSettled t
    Step-SerialSettled {s} (calls c) i v = run_call-SerialSettled c s i.unpaused v
    Step-SerialSettled {s} (read_completes a h _) i v = read_completed-SerialSettled a s i h
    Step-SerialSettled {s} (write_completes ec _) i v =
        write_completed-SerialSettled ec s i.unpaused

    pub serial_session-SerialSettled :
        {s t : SerialSession H}
        → SerialInv s
        → SerialSettled s
        → Reach (serial_machine react) s t
        → SerialSettled t
    serial_session-SerialSettled i v here = v
    serial_session-SerialSettled i v (next r st) =
        Step-SerialSettled st (serial_session-SerialInv react i r)
          (serial_session-SerialSettled i v r)
