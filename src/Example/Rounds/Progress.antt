-- ===== src/Example/Rounds/Progress.antt =====
-- Invariants of the benchmarks' runs, whatever the peer answers.
use transit_session.Base.{
  ℕ, ◌+◌, ◌-◌, ◌≤◌, ◌<◌, ◌≡◌, refl, Bool, true, false, not, List, [], ◌∷◌, arith, ltb, ◌==◌, ◌||◌,
  length, if_cases, length-append,
}
use transit_session.Errors
use transit_session.Errors.{ErrorCode}
use transit_session.Can.{CanFrame}
use transit_session.Example.Stats.{add}
use transit_session.Example.Payload.{Host, word_size, make_payload, make_frame}
use transit_session.Example.Rounds.{
  exit_code, Bench, new_bench, complete, fail, send_next, on_sequence, on_tick, on_message,
  on_frame, Event, run_events,
}

-- One latency is kept for each response; the context is stopped and the session closed just when the
-- run is completed, which it is when it failed. As long as it goes on, one request is open, and when it
-- has ended and `main` returns 0, every sample was answered.
pub record BenchInv {M : Type 0} (samples : ℕ) (s : Bench M) : Type 0 where
  pub kept : length s.stats.samples ≡ s.received_count
  pub ended : s.stopped ≡ s.completed
  pub closed : s.closed ≡ s.completed
  pub reported : s.failed ≡ true → s.completed ≡ true
  pub limit : s.sent_count ≤ samples
  pub running : s.completed ≡ false → s.sent_count ≡ s.received_count + 1
  pub succeeded : s.completed ≡ true → exit_code s ≡ 0 → s.received_count ≡ samples

module _ {M : Type 0} (samples : ℕ) where
  pub fail-BenchInv : (s : Bench M) → BenchInv samples s → BenchInv samples (fail s)
  unfolding fail complete
  fail-BenchInv s v = record {
    kept = v.kept;
    ended = refl;
    closed = refl;
    reported = λ e. refl;
    limit = v.limit;
    running = λ e. absurd (cc);
    succeeded = λ e f. absurd (cc);
  }

  on_tick-BenchInv :
      (limit start now : ℕ) (s : Bench M)
      → BenchInv samples s
      → BenchInv samples (on_tick limit start now s)
  unfolding on_tick
  on_tick-BenchInv limit start now s v =
      if_cases (BenchInv samples) s.completed (λ _. v)
        (λ _.
          if_cases (BenchInv samples) (ltb (now - start) limit) (λ _. v) (λ _. fail-BenchInv s v))

  module _ (clock : ℕ → ℕ) (make : ℕ → M) where
    pub start-BenchInv : 0 < samples → BenchInv samples (send_next samples clock make new_bench)
    unfolding send_next
    start-BenchInv h =
        if_cases (BenchInv samples) (not (ltb 0 samples)) (λ e. absurd (ground arith))
          (λ e. record {
            kept = refl;
            ended = refl;
            closed = refl;
            reported = λ f. absurd (cc);
            limit = omega arith;
            running = λ _. refl;
            succeeded = λ f. absurd (cc);
          })

    pub on_sequence-BenchInv :
        (n : ℕ) (s : Bench M)
        → s.stopped ≡ false
        → BenchInv samples s
        → BenchInv samples (on_sequence samples clock make n s)
    unfolding on_sequence complete send_next add
    on_sequence-BenchInv n s r v =
        let open_one : s.sent_count ≡ s.received_count + 1 = v.running (cc) in
        let grown = length-append s.stats.samples ((clock s.readings - s.send_started_at) ∷ []) in
        if_cases (BenchInv samples) (not (n == s.expected_sequence)) (λ _. fail-BenchInv s v)
          (λ _.
            if_cases (BenchInv samples) (not (ltb (s.received_count + 1) samples))
              (λ full. record {
                kept = omega (arith, grown, v.kept);
                ended = refl;
                closed = refl;
                reported = λ _. refl;
                limit = v.limit;
                running = λ f. absurd (cc);
                succeeded = λ _ _. ground (arith, v.limit);
              })
              (λ more.
                if_cases (BenchInv samples) (not (ltb s.sent_count samples))
                  (λ e. absurd (ground arith))
                  (λ e. record {
                    kept = omega (arith, grown, v.kept);
                    ended = v.ended;
                    closed = v.closed;
                    reported = v.reported;
                    limit = ground arith;
                    running = λ _. omega arith;
                    succeeded = λ f. absurd (cc);
                  })))

-- Events keep the invariant when the read handler does.
run_events-BenchInv :
    {M D : Type 0} (samples : ℕ) (on_read : ErrorCode → D → Bench M → Bench M) (limit start : ℕ)
    → ((ec : ErrorCode) (d : D) (s : Bench M)
        → s.stopped ≡ false
        → BenchInv samples s
        → BenchInv samples (on_read ec d s))
    → (es : List (Event D)) (s : Bench M) → BenchInv samples s
    → BenchInv samples (run_events on_read limit start es s)
run_events-BenchInv samples on_read limit start keeps [] s v = v
run_events-BenchInv samples on_read limit start keeps (Event.arrives ec d ∷ es) s v =
    run_events-BenchInv samples on_read limit start keeps es _
      (if_cases (BenchInv samples) s.stopped (λ _. v) (λ go. keeps ec d s go v))
run_events-BenchInv samples on_read limit start keeps (Event.tick now ∷ es) s v =
    run_events-BenchInv samples on_read limit start keeps es _
      (on_tick-BenchInv samples limit start now s v)

module _ (host : Host) (samples : ℕ) (clock : ℕ → ℕ) where
  on_message-BenchInv :
      (size : ℕ) (ec : ErrorCode) (d : List ℕ) (s : Bench (List ℕ))
      → s.stopped ≡ false
      → BenchInv samples s
      → BenchInv samples (on_message host samples clock size ec d s)
  unfolding on_message
  on_message-BenchInv size ec d s r v =
      if_cases (BenchInv samples) (Errors.failed ec) (λ _. fail-BenchInv samples s v)
        (λ _.
          if_cases (BenchInv samples) (ltb (length d) word_size) (λ _. fail-BenchInv samples s v)
            (λ _. on_sequence-BenchInv samples clock _ _ s r v))

  on_frame-BenchInv :
      (id : ℕ) (fd : Bool) (ec : ErrorCode) (f : CanFrame) (s : Bench CanFrame)
      → s.stopped ≡ false
      → BenchInv samples s
      → BenchInv samples (on_frame host samples clock id fd ec f s)
  unfolding on_frame
  on_frame-BenchInv id fd ec f s r v =
      if_cases (BenchInv samples) (Errors.failed ec) (λ _. fail-BenchInv samples s v)
        (λ _.
          if_cases (BenchInv samples) (not (f.id == id) || ltb f.data_length word_size) (λ _. v)
            (λ _. on_sequence-BenchInv samples clock _ _ s r v))

  -- Whatever messages, frames, errors and timeouts come, a run of the WebSocket and of the CAN
  -- benchmark with at least one sample keeps its invariant: one latency for each response, one open
  -- request while it goes on, and, when it is completed and `main` returns 0, an answer to every
  -- sample.
  pub run_events_lem :
      (limit start size id : ℕ) (fd : Bool) (es : List (Event (List ℕ)))
      (fs : List (Event CanFrame))
      → 0 < samples
      → BenchInv samples (
          run_events
            (on_message host samples clock size)
            limit
            start
            es
            (send_next samples clock (make_payload host size) new_bench))
        × BenchInv samples (
            run_events
              (on_frame host samples clock id fd)
              limit
              start
              fs
              (send_next samples clock (λ n. make_frame host id n fd) new_bench))
  run_events_lem limit start size id fd es fs h = (
    run_events-BenchInv samples _ limit start (on_message-BenchInv size) es _
        (start-BenchInv samples clock _ h),
    run_events-BenchInv samples _ limit start (on_frame-BenchInv id fd) fs _
        (start-BenchInv samples clock _ h),
  )
