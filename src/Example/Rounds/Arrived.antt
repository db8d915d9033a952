-- ===== src/Example/Rounds/Arrived.antt =====
-- What the serial benchmark makes of bytes that arrive in parts.
use Prim.Native.Nat.{zero, suc}
use transit_session.Base.{
  ℕ, ◌≤◌, ◌≡◌, inl, inr, refl, sym, ap, subst, ◌∙◌, true, false, List, [], ◌∷◌, ◌++◌, arith, ltb,
  length, take, drop, if_cases, Bool-cases, length-drop, length-append, append_assoc,
}
use transit_session.Errors.{success}
use transit_session.Example.Payload.{Host, word_size, make_payload, read_sequence}
use transit_session.Example.Rounds.{on_sequence, ends, SerialBench, drain, on_bytes}
use transit_session.Example.Rounds.Drained.{
  ends-stopped, taken, returns, drain-short, taken-less, drain-fuel, drain-goes, drain-ends,
}

drop-append : (n : ℕ) (xs ys : List ℕ) → n ≤ length xs → drop n (xs ++ ys) ≡ drop n xs ++ ys
drop-append zero xs ys h = refl
drop-append (suc n) [] ys h = absurd (omega arith)
drop-append (suc n) (x ∷ xs) ys h = drop-append n xs ys (omega arith)

take-append : (n : ℕ) (xs ys : List ℕ) → n ≤ length xs → take n (xs ++ ys) ≡ take n xs
take-append zero xs ys h = refl
take-append (suc n) [] ys h = absurd (omega arith)
take-append (suc n) (x ∷ xs) ys h = ap (◌∷◌ x) (take-append n xs ys (omega arith))

module _ (host : Host) (samples : ℕ) (clock : ℕ → ℕ) (size : ℕ) (big : word_size ≤ size) where
  -- The bytes behind those that have arrived.
  abbrev more : List ℕ → SerialBench → SerialBench
  more ys s = record s { pending_response = s.pending_response ++ ys }

  taken-more :
      (ys : List ℕ) (s : SerialBench)
      → size ≤ length s.pending_response
      → taken host samples clock size big (more ys s)
        ≡ more ys (taken host samples clock size big s)
  unfolding read_sequence
  taken-more ys s h i = record {
    pending_response = drop-append size s.pending_response ys h i;
    bench =
        on_sequence samples clock (make_payload host size)
          (host.word_of (take-append word_size s.pending_response ys (omega arith) i)) s.bench;
  }

  returns-more :
      (ys : List ℕ) (s : SerialBench)
      → size ≤ length s.pending_response
      → returns host samples clock size big (more ys s) ≡ returns host samples clock size big s
  unfolding read_sequence
  returns-more ys s h =
      ap (λ n. ends samples clock (make_payload host size) (host.word_of n) s.bench)
        (take-append word_size s.pending_response ys (omega arith))

  more-less :
      (ys : List ℕ) (g : ℕ) (s : SerialBench)
      → length (s.pending_response ++ ys) ≤ g
      → length ((taken host samples clock size big s).pending_response ++ ys) ≤ g
  more-less ys g s k = omega (
    arith,
    length-append s.pending_response ys,
    length-append (drop size s.pending_response) ys,
    length-drop size s.pending_response,
  )

  -- A round that goes on does so with more bytes behind it.
  more-goes :
      (ys : List ℕ) (g : ℕ) (s : SerialBench)
      → size ≤ length s.pending_response
      → length (s.pending_response ++ ys) ≤ g
      → returns host samples clock size big s ≡ false
      → drain host samples clock size g (more ys s)
        ≡ drain host samples clock size g (more ys (taken host samples clock size big s))
  more-goes ys g s h k e =
      let long = length-append s.pending_response ys in
      drain-fuel host samples clock size big g (suc g) (more ys s) k (omega arith)
      ∙ drain-goes host samples clock size big g (more ys s) (omega arith) (returns-more ys s h ∙ e)
      ∙ ap (drain host samples clock size g) (taken-more ys s h)

  -- Bytes that come later can be looked at together with those that came before.
  drain-more :
      (ys : List ℕ) (f g : ℕ) (s : SerialBench)
      → length s.pending_response ≤ f
      → length (s.pending_response ++ ys) ≤ g
      → (drain host samples clock size f s).bench.stopped ≡ false
      → drain host samples clock size g (more ys s)
        ≡ drain host samples clock size g (more ys (drain host samples clock size f s))
  drain-more ys zero g s h k r =
      ap (λ t. drain host samples clock size g (more ys t))
        (sym (drain-short host samples clock size big 0 s (omega arith)))
  drain-more ys (suc f) g s h k r = elim (Bool-cases (ltb (length s.pending_response) size)) [
    | inl e ↦
        ap (λ t. drain host samples clock size g (more ys t))
          (sym (drain-short host samples clock size big (suc f) s (ground arith)))
    | inr e ↦
        let full : size ≤ length s.pending_response = ground arith in
        elim (Bool-cases (returns host samples clock size big s)) [
          | inl b ↦
              let stop : (taken host samples clock size big s).bench.stopped ≡ true =
                ends-stopped samples clock (make_payload host size)
                  (read_sequence host s.pending_response) s.bench b in
              let go : (taken host samples clock size big s).bench.stopped ≡ false =
                subst (λ t. t.bench.stopped ≡ false)
                  (drain-ends host samples clock size big f s full b) r in
              absurd (cc)
          | inr b ↦
              let less = taken-less host samples clock size big s full in
              let one : drain host samples clock size (suc f) s
                  ≡ drain host samples clock size f (taken host samples clock size big s) =
                drain-goes host samples clock size big f s full b in
              more-goes ys g s full k b
              ∙ drain-more ys f g (taken host samples clock size big s) (omega arith)
                  (more-less ys g s k) (subst (λ t. t.bench.stopped ≡ false) one r)
              ∙ ap (λ t. drain host samples clock size g (more ys t)) (sym one)
        ]
  ]

  drain-length :
      (f : ℕ) (s : SerialBench)
      → length (drain host samples clock size f s).pending_response ≤ length s.pending_response
  unfolding drain
  drain-length zero s = omega arith
  drain-length (suc f) s =
      let P : SerialBench → Type 0 = λ t. length t.pending_response ≤ length s.pending_response in
      let next = taken host samples clock size big s in
      let less = length-drop size s.pending_response in
      if_cases P (ltb (length s.pending_response) size) (λ _. omega arith)
        (λ _.
          if_cases P (returns host samples clock size big s) (λ _. omega arith)
            (λ _. let rest = drain-length f next in omega arith))

  -- Splitting the bytes that arrive does not matter: unless the first part ends the run, the
  -- handler leaves the same after both parts in turn as after both at once, readings of the clock
  -- included.
  pub on_bytes-append :
      (xs ys : List ℕ) (s : SerialBench)
      → (on_bytes host samples clock size success xs s).bench.stopped ≡ false
      → on_bytes host samples clock size success (xs ++ ys) s
        ≡ on_bytes host samples clock size success ys
            (on_bytes host samples clock size success xs s)
  unfolding on_bytes
  on_bytes-append xs ys s r =
      let p = s.pending_response in
      let first = drain host samples clock size (length (p ++ xs)) (more xs s) in
      ap (λ q. drain host samples clock size (length q) (record s { pending_response = q }))
        (sym (append_assoc p xs ys))
      ∙ drain-more ys (length (p ++ xs)) (length ((p ++ xs) ++ ys)) (more xs s) (omega arith)
          (omega arith) r
      ∙ drain-fuel host samples clock size big (length ((p ++ xs) ++ ys))
          (length (first.pending_response ++ ys)) (more ys first)
          (omega (
            arith,
            drain-length (length (p ++ xs)) (more xs s),
            length-append first.pending_response ys,
            length-append (p ++ xs) ys,
          ))
          (omega arith)
