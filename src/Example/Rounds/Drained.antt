-- ===== src/Example/Rounds/Drained.antt =====
-- The loop of the serial benchmark over the bytes that have arrived.
use Prim.Native.Nat.{zero, suc}
use transit_session.Base.{
  ℕ, ◌+◌, ◌≤◌, ◌<◌, ◌≡◌, inl, inr, refl, sym, ap, ◌∙◌, Bool, true, false, not, arith, ltb, ◌==◌,
  if◌then◌else◌, length, drop, if_cases, Bool-cases, length-drop,
}
use transit_session.Example.Payload.{Host, word_size, make_payload, read_sequence}
use transit_session.Example.Rounds.{
  Bench, complete, fail, send_next, on_sequence, ends, SerialBench, drain,
}

module _ {M : Type 0} (samples : ℕ) (clock : ℕ → ℕ) (make : ℕ → M) where
  -- The tail of the handler stops the context just when it returns early.
  pub ends-stopped :
      (n : ℕ) (s : Bench M)
      → ends samples clock make n s ≡ true
      → (on_sequence samples clock make n s).stopped ≡ true
  unfolding ends on_sequence fail complete send_next
  ends-stopped n s h =
      let P : Bench M → Type 0 = λ t. t.stopped ≡ true in
      if_cases P (not (n == s.expected_sequence)) (λ _. refl)
        (λ e.
          if_cases P (not (ltb (s.received_count + 1) samples)) (λ _. refl)
            (λ f. absurd (ground arith)))

  pub goes-stopped :
      (n : ℕ) (s : Bench M)
      → ends samples clock make n s ≡ false
      → (on_sequence samples clock make n s).stopped ≡ s.stopped
  unfolding ends on_sequence fail complete send_next
  goes-stopped n s h =
      let P : Bench M → Type 0 = λ t. t.stopped ≡ s.stopped in
      if_cases P (not (n == s.expected_sequence)) (λ e. absurd (ground arith))
        (λ _.
          if_cases P (not (ltb (s.received_count + 1) samples)) (λ f. absurd (ground arith))
            (λ _. if_cases P (not (ltb s.sent_count samples)) (λ _. refl) (λ _. refl)))

module _ (host : Host) (samples : ℕ) (clock : ℕ → ℕ) (size : ℕ) (big : word_size ≤ size) where
  -- The body of the loop.
  abbrev pub taken : SerialBench → SerialBench
  taken s = record {
    pending_response = drop size s.pending_response;
    bench =
        on_sequence samples clock (make_payload host size) (read_sequence host s.pending_response)
          s.bench;
  }

  -- Whether the body returns from the handler.
  abbrev pub returns : SerialBench → Bool
  returns s =
      ends samples clock (make_payload host size) (read_sequence host s.pending_response) s.bench

  -- The three outcomes of a round.
  pub drain-short :
      (f : ℕ) (s : SerialBench)
      → length s.pending_response < size
      → drain host samples clock size f s ≡ s
  unfolding drain
  drain-short zero s h = refl
  drain-short (suc f) s h =
      if_cases (λ t. t ≡ s) (ltb (length s.pending_response) size) (λ _. refl)
        (λ e. absurd (ground arith))

  drain-round :
      (f : ℕ) (s : SerialBench)
      → size ≤ length s.pending_response
      → drain host samples clock size (suc f) s
        ≡ (if returns s then taken s else drain host samples clock size f (taken s))
  unfolding drain
  drain-round f s h =
      if_cases (λ t. t ≡ (if returns s then taken s else drain host samples clock size f (taken s)))
        (ltb (length s.pending_response) size) (λ e. absurd (ground arith)) (λ _. refl)

  -- A round takes bytes away.
  pub taken-less :
      (s : SerialBench)
      → size ≤ length s.pending_response
      → length (taken s).pending_response < length s.pending_response
  taken-less s h = omega (arith, length-drop size s.pending_response)

  -- Fuel for each byte is enough: more changes nothing.
  pub drain-fuel :
      (f g : ℕ) (s : SerialBench)
      → length s.pending_response ≤ f
      → length s.pending_response ≤ g
      → drain host samples clock size f s ≡ drain host samples clock size g s
  drain-fuel zero g s h k = drain-short zero s (omega arith) ∙ sym (drain-short g s (omega arith))
  drain-fuel (suc f) zero s h k =
      drain-short (suc f) s (omega arith) ∙ sym (drain-short 0 s (omega arith))
  drain-fuel (suc f) (suc g) s h k = elim (Bool-cases (ltb (length s.pending_response) size)) [
    | inl e ↦ drain-short (suc f) s (ground arith) ∙ sym (drain-short (suc g) s (ground arith))
    | inr e ↦
        let full : size ≤ length s.pending_response = ground arith in
        let less = taken-less s full in
        drain-round f s full
        ∙ ap (λ t. if returns s then taken s else t)
            (drain-fuel f g (taken s) (omega arith) (omega arith))
        ∙ sym (drain-round g s full)
  ]

  pub drain-goes :
      (f : ℕ) (s : SerialBench)
      → size ≤ length s.pending_response
      → returns s ≡ false
      → drain host samples clock size (suc f) s ≡ drain host samples clock size f (taken s)
  drain-goes f s h e =
      drain-round f s h
      ∙ ap (λ (b : Bool). if b then taken s else drain host samples clock size f (taken s)) e

  pub drain-ends :
      (f : ℕ) (s : SerialBench)
      → size ≤ length s.pending_response
      → returns s ≡ true
      → drain host samples clock size (suc f) s ≡ taken s
  drain-ends f s h e =
      drain-round f s h
      ∙ ap (λ (b : Bool). if b then taken s else drain host samples clock size f (taken s)) e
