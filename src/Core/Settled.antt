-- ===== src/Core/Settled.antt =====
-- No wake-up is lost: between two steps an open session of a full-duplex transport has a write
-- under way if anything is queued, and a read under way if reading is switched on.
use transit_session.Base.{◌≡◌, refl, ◌⊎◌, inl, inr, true, false, not, ◌&&◌, [], arith, if_cases}
use transit_session.Errors.{ErrorCode}
use transit_session.Core.{
  Session, Derived, Call, set_read_handler, start_reading, stop_reading, close, send, own_call,
  construct, has_pending_writes, close_session, try_write, try_read, schedule_operations,
  enqueue_write, run_call,
}
use transit_session.Core.Machine.{
  Machine, Step, calls, read_completes, write_completes, Reach, here, next,
}

module _ {R W H D : Type 0} where
  abbrev pub Sending : Session R W H D → Type 0
  Sending s = (s.closed ≡ true) ⊎ ((s.write_in_progress ≡ true) ⊎ (s.write_queue ≡ []))

  abbrev pub Reading : Session R W H D → Type 0
  Reading s = (s.closed ≡ true) ⊎ ((s.read_in_progress ≡ true) ⊎ (s.read_enabled ≡ false))

  pub record Settled (s : Session R W H D) : Type 0 where
    pub sending : Sending s
    pub reading : Reading s

  pub construct-Settled : (d : D) → Settled (construct {R = R} {W = W} {H = H} d)
  unfolding construct
  construct-Settled d = record { sending = inr (inr refl); reading = inr (inr refl) }

  -- A transport that starts an operation whenever it may, and tests for nothing else.
  pub record IsEager (derived : Derived R W H D) : Type 0 where
    pub write_test :
        (s : Session R W H D)
        → derived.can_start_write s
          ≡ (not s.write_in_progress && (has_pending_writes s && not s.closed))
    pub read_test :
        (s : Session R W H D)
        → derived.can_start_read s ≡ (s.read_enabled && (not s.read_in_progress && not s.closed))
    pub writes : (s : Session R W H D) → Sending (derived.do_write s)
    pub reads : (s : Session R W H D) → Sending s → Settled (derived.do_read s)
    pub closes : (s : Session R W H D) → (derived.close_transport s).closed ≡ s.closed

module _ {R W H D : Type 0} {derived : Derived R W H D} (eager : IsEager derived) where
  try_write-Sending : (s : Session R W H D) → Sending (try_write derived s)
  unfolding try_write
  try_write-Sending s =
      if_cases Sending (derived.can_start_write s) (λ _. eager.writes s)
        (λ e. ground (arith, eager.write_test s))

  try_read-Settled : (s : Session R W H D) → Sending s → Settled (try_read derived s)
  unfolding try_read
  try_read-Settled s h =
      if_cases Settled (derived.can_start_read s) (λ _. eager.reads s h)
        (λ e. record { sending = h; reading = ground (arith, eager.read_test s) })

  pub schedule_operations-Settled : (s : Session R W H D) → Settled (schedule_operations derived s)
  unfolding schedule_operations
  schedule_operations-Settled s = try_read-Settled _ (try_write-Sending s)

  pub close_session-Settled :
      (s : Session R W H D) → Settled (close_session derived.close_transport s)
  unfolding close_session
  close_session-Settled s =
      if_cases Settled s.closed (λ e. record { sending = inl e; reading = inl e })
        (λ _. record { sending = inl (eager.closes _); reading = inl (eager.closes _) })

  run_call-Settled :
      {X : Type 0} (run_own : X → Session R W H D → Session R W H D)
      → ((x : X) (s : Session R W H D) → Settled s → Settled (run_own x s))
      → (c : Call W H X) (s : Session R W H D) → Settled s
      → Settled (run_call derived run_own c s)
  unfolding run_call enqueue_write
  run_call-Settled run_own own (set_read_handler h) s v = record {
    sending = v.sending;
    reading = v.reading;
  }
  run_call-Settled run_own own start_reading s v =
      if_cases Settled s.closed (λ _. v) (λ _. schedule_operations-Settled _)
  run_call-Settled run_own own stop_reading s v = record {
    sending = v.sending;
    reading = inr (inr refl);
  }
  run_call-Settled run_own own close s v = close_session-Settled s
  run_call-Settled run_own own (send w) s v =
      if_cases Settled s.closed (λ _. v) (λ _. schedule_operations-Settled _)
  run_call-Settled run_own own (own_call x) s v = own x s v

-- It is enough that the two completion handlers end by scheduling or by closing.
module _ {R W H X D P : Type 0} (m : Machine R W H X D P) (eager : IsEager m.derived)
    (own : (x : X) (s : Session R W H D) → Settled s → Settled (m.run_own x s))
    (read : (p : P) (s : Session R W H D) → Settled (m.read_completed p s))
    (write : (ec : ErrorCode) (s : Session R W H D) → Settled (m.write_completed ec s)) where
  Step-Settled : {s t : Session R W H D} → Step m s t → Settled s → Settled t
  Step-Settled {s} (calls c) v = run_call-Settled eager m.run_own own c s v
  Step-Settled {s} (read_completes p h a) v = read p s
  Step-Settled {s} (write_completes ec h) v = write ec s

  pub Reach-Settled : {s t : Session R W H D} → Settled s → Reach m s t → Settled t
  Reach-Settled v here = v
  Reach-Settled v (next r st) = Step-Settled st (Reach-Settled v r)
