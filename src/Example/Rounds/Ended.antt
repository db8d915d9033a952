-- ===== src/Example/Rounds/Ended.antt =====
-- How the serial benchmark's handler ends.
use Prim.Native.Nat.{zero, suc}
use transit_session.Base.{
  ℕ, ◌+◌, ◌≤◌, ◌<◌, ◌≡◌, ◌⊎◌, inl, inr, refl, sym, subst, ◌∙◌, true, false, List, ◌++◌, arith, ltb,
  length, if_cases, Bool-cases,
}
use transit_session.Errors
use transit_session.Errors.{ErrorCode, success}
use transit_session.Example.Payload.{Host, word_size, make_payload, read_sequence}
use transit_session.Example.Rounds.{Bench, complete, fail, SerialBench, drain, on_bytes}
use transit_session.Example.Rounds.Progress.{BenchInv, on_sequence-BenchInv, fail-BenchInv}
use transit_session.Example.Rounds.Drained.{
  ends-stopped, goes-stopped, taken, returns, drain-short, taken-less, drain-fuel, drain-goes,
  drain-ends,
}

fail-stopped : {M : Type 0} (s : Bench M) → (fail s).stopped ≡ true
unfolding fail complete
fail-stopped s = refl

module _ (host : Host) (samples : ℕ) (clock : ℕ → ℕ) (size : ℕ) (big : word_size ≤ size) where
  -- What enough fuel leaves: less than a response, or a run that has ended.
  abbrev pub Settled : SerialBench → Type 0
  Settled t =
      BenchInv samples t.bench × ((t.bench.stopped ≡ true) ⊎ (length t.pending_response < size))

  drain_done :
      (f : ℕ) (s : SerialBench)
      → length s.pending_response ≤ f
      → s.bench.stopped ≡ false
      → BenchInv samples s.bench
      → Settled (drain host samples clock size f s)
  drain_done zero s h r v =
      subst Settled (sym (drain-short host samples clock size big 0 s (omega arith)))
        (v, inr (omega arith))
  drain_done (suc f) s h r v = elim (Bool-cases (ltb (length s.pending_response) size)) [
    | inl e ↦
        subst Settled (sym (drain-short host samples clock size big (suc f) s (ground arith)))
          (v, inr (ground arith))
    | inr e ↦
        let make = make_payload host size in
        let n = read_sequence host s.pending_response in
        let next = taken host samples clock size big s in
        let full : size ≤ length s.pending_response = ground arith in
        let less = taken-less host samples clock size big s full in
        let w : BenchInv samples next.bench =
          on_sequence-BenchInv samples clock make n s.bench r v in
        elim (Bool-cases (returns host samples clock size big s)) [
          | inl b ↦
              subst Settled (sym (drain-ends host samples clock size big f s full b))
                (w, inl (ends-stopped samples clock make n s.bench b))
          | inr b ↦
              subst Settled (sym (drain-goes host samples clock size big f s full b)) (
                drain_done f next (omega arith) (goes-stopped samples clock make n s.bench b ∙ r) w)
        ]
  ]

  -- While the run goes on, with payloads of at least four bytes, the handler of the serial
  -- benchmark loops at most once for each pending byte: more fuel leaves the same. It keeps the
  -- invariant of the run, and it leaves less than one response unless it has ended the run.
  pub on_bytes_lem :
      (extra : ℕ) (ec : ErrorCode) (bytes : List ℕ) (s : SerialBench)
      → s.bench.stopped ≡ false
      → BenchInv samples s.bench
      → let all : SerialBench = record s { pending_response = s.pending_response ++ bytes } in
        let n = length all.pending_response in
        (drain host samples clock size (n + extra) all ≡ drain host samples clock size n all)
        × BenchInv samples (on_bytes host samples clock size ec bytes s).bench
        × (((on_bytes host samples clock size ec bytes s).bench.stopped ≡ true)
            ⊎ (length (on_bytes host samples clock size ec bytes s).pending_response < size))
  unfolding on_bytes
  on_bytes_lem extra ec bytes s r v =
      let n = length (s.pending_response ++ bytes) in
      let same =
        drain-fuel host samples clock size big (n + extra) n
          (record s { pending_response = s.pending_response ++ bytes }) (omega arith)
          (omega arith) in
      let done : Settled (on_bytes host samples clock size ec bytes s) =
        if_cases Settled (Errors.failed ec)
          (λ _. (fail-BenchInv samples s.bench v, inl (fail-stopped s.bench)))
          (λ _.
            drain_done n (record s { pending_response = s.pending_response ++ bytes }) (omega arith)
              r v) in
      let (inv, left) = done in (same, inv, left)
