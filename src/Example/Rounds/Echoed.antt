-- ===== src/Example/Rounds/Echoed.antt =====
-- The runs of the WebSocket and the CAN benchmark with a peer that sends each request back.
use Prim.Native.Nat.{zero, suc}
use transit_session.Base.{
  ℕ, ◌+◌, ◌-◌, ◌%◌, ◌^◌, ◌≤◌, ◌<◌, ◌≡◌, refl, sym, ap, subst, ◌∙◌, true, false, not, List, [], ◌∷◌,
  arith, ltb, ◌==◌, if◌then◌else◌, length, if_cases, list_cases,
}
use transit_session.Errors.{success}
use transit_session.Example.Payload.{Host, IsHost, word_size, make_payload}
use transit_session.Example.Payload.Filled.{make_payload_lem}
use transit_session.Example.Rounds.{
  Bench, new_bench, complete, send_next, on_sequence, on_tick, on_message,
}

-- The timeout thread looks at the clock, once for each value.
abbrev look : {M : Type 0} → ℕ → ℕ → List ℕ → Bench M → Bench M
look limit start [] s = s
look limit start (now ∷ nows) s = look limit start nows (on_tick limit start now s)

-- The clock never shows that the limit has passed.
abbrev pub WithinLimit : ℕ → ℕ → List ℕ → Type 0
WithinLimit limit start [] = Unit {0}
WithinLimit limit start (now ∷ nows) = (now - start < limit) × WithinLimit limit start nows

look-within :
    {M : Type 0} (limit start : ℕ) (nows : List ℕ) (s : Bench M)
    → WithinLimit limit start nows
    → look limit start nows s ≡ s
unfolding on_tick
look-within limit start [] s h = refl
look-within limit start (now ∷ nows) s h =
    let same : on_tick limit start now s ≡ s =
      if_cases (λ t. t ≡ s) s.completed (λ _. refl)
        (λ _.
          if_cases (λ t. t ≡ s) (ltb (now - start) limit) (λ _. refl)
            (λ e. absurd (ground arith))) in
    ap (look limit start nows) same ∙ look-within limit start nows s h.1

module _ {M : Type 0} (answer : M → Bench M → Bench M) where
  -- The oldest open request is answered, unless the context is stopped.
  abbrev pub echo_round : Bench M → Bench M
  echo_round s =
      if s.stopped
      then s
      else elim s.in_flight [ [] ↦ s | m ∷ r ↦ answer m (record s { in_flight = r }) ]

  abbrev echo_rounds : ℕ → Bench M → Bench M
  echo_rounds zero s = s
  echo_rounds (suc n) s = echo_rounds n (echo_round s)

  -- Before each answer the timeout thread looks at the clock, as often as there are values.
  abbrev pub timed_rounds : (ℕ → List ℕ) → ℕ → ℕ → ℕ → Bench M → Bench M
  timed_rounds nows limit start zero s = s
  timed_rounds nows limit start (suc n) s =
      timed_rounds nows limit start n (echo_round (look limit start (nows n) s))

  pub timed_rounds-within :
      (nows : ℕ → List ℕ) (limit start n : ℕ) (s : Bench M)
      → ((k : ℕ) → WithinLimit limit start (nows k))
      → timed_rounds nows limit start n s ≡ echo_rounds n s
  timed_rounds-within nows limit start zero s h = refl
  timed_rounds-within nows limit start (suc n) s h =
      timed_rounds-within nows limit start n (echo_round (look limit start (nows n) s)) h
      ∙ ap (λ t. echo_rounds n (echo_round t)) (look-within limit start (nows n) s (h n))

-- A run that has ended with all responses.
pub record IsAnswered {M : Type 0} (samples : ℕ) (s : Bench M) : Type 0 where
  pub completed : s.completed ≡ true
  pub stopped : s.stopped ≡ true
  pub failed : s.failed ≡ false
  pub received : s.received_count ≡ samples
  pub sent : s.sent_count ≡ samples
  pub in_flight : s.in_flight ≡ []

module _ {M : Type 0} (samples : ℕ) (clock : ℕ → ℕ) (make : ℕ → M) (answer : M → Bench M → Bench M)
    (answers : (w : ℕ) (s : Bench M)
      → w < 2 ^ 32
      → answer (make w) s ≡ on_sequence samples clock make w s) where
  -- The request of a number is open, and all before it are answered.
  record IsOpen (k : ℕ) (s : Bench M) : Type 0 where
    stopped : s.stopped ≡ false
    failed : s.failed ≡ false
    received : s.received_count ≡ k
    sent : s.sent_count ≡ k + 1
    expected : s.expected_sequence ≡ k % 2 ^ 32
    in_flight : s.in_flight ≡ make (k % 2 ^ 32) ∷ []

  start-IsOpen : 0 < samples → IsOpen 0 (send_next samples clock make new_bench)
  unfolding send_next
  start-IsOpen h =
      if_cases (IsOpen 0) (not (ltb 0 samples)) (λ e. absurd (ground arith))
        (λ e. record {
          stopped = refl;
          failed = refl;
          received = refl;
          sent = refl;
          expected = refl;
          in_flight = refl;
        })

  round-answer :
      (k : ℕ) (s : Bench M)
      → IsOpen k s
      → echo_round answer s
        ≡ on_sequence samples clock make (k % 2 ^ 32) (record s { in_flight = [] })
  round-answer k s v =
      let to : Bench M =
        on_sequence samples clock make (k % 2 ^ 32) (record s { in_flight = [] }) in
      let P : Bench M → Type 0 = λ t. t ≡ to in
      if_cases P s.stopped (λ e. absurd (cc))
        (λ _.
          list_cases P s.in_flight (λ e. absurd (cc))
            (λ m r e.
              let h = answers (k % 2 ^ 32) (record s { in_flight = [] }) (omega arith) in
              let same : m ∷ r ≡ make (k % 2 ^ 32) ∷ [] = sym e ∙ v.in_flight in
              let head : m ≡ make (k % 2 ^ 32) = cc in let tail : r ≡ [] = cc in cc))

  -- After the last answer, and after one before it.
  last-IsAnswered :
      (k : ℕ) (s : Bench M)
      → IsOpen k s
      → suc k ≡ samples
      → IsAnswered samples
          (on_sequence samples clock make (k % 2 ^ 32) (record s { in_flight = [] }))
  unfolding on_sequence complete
  last-IsAnswered k s v h =
      if_cases (IsAnswered samples) (not (k % 2 ^ 32 == s.expected_sequence))
        (λ e. absurd (ground (arith, v.expected)))
        (λ _.
          if_cases (IsAnswered samples) (not (ltb (s.received_count + 1) samples))
            (λ _. record {
              completed = refl;
              stopped = refl;
              failed = v.failed;
              received = omega (arith, v.received, h);
              sent = omega (arith, v.sent, h);
              in_flight = refl;
            })
            (λ e. absurd (ground (arith, v.received, h))))

  next-IsOpen :
      (k : ℕ) (s : Bench M)
      → IsOpen k s
      → suc k < samples
      → IsOpen (suc k) (on_sequence samples clock make (k % 2 ^ 32) (record s { in_flight = [] }))
  unfolding on_sequence send_next
  next-IsOpen k s v h =
      if_cases (IsOpen (suc k)) (not (k % 2 ^ 32 == s.expected_sequence))
        (λ e. absurd (ground (arith, v.expected)))
        (λ _.
          if_cases (IsOpen (suc k)) (not (ltb (s.received_count + 1) samples))
            (λ e. absurd (ground (arith, v.received, h)))
            (λ _.
              if_cases (IsOpen (suc k)) (not (ltb s.sent_count samples))
                (λ e. absurd (ground (arith, v.sent, h)))
                (λ _.
                  let at : s.sent_count ≡ suc k = omega (arith, v.sent) in
                  record {
                    stopped = v.stopped;
                    failed = v.failed;
                    received = omega (arith, v.received);
                    sent = omega (arith, v.sent);
                    expected = ap (λ n. n % 2 ^ 32) at;
                    in_flight = ap (λ n. make (n % 2 ^ 32) ∷ []) at;
                  })))

  echo_rounds-IsAnswered :
      (n k : ℕ) (s : Bench M)
      → IsOpen k s
      → k + suc n ≡ samples
      → IsAnswered samples (echo_rounds answer (suc n) s)
  echo_rounds-IsAnswered zero k s v h =
      subst (IsAnswered samples) (sym (round-answer k s v))
        (last-IsAnswered k s v (omega (arith, h)))
  echo_rounds-IsAnswered (suc n) k s v h =
      echo_rounds-IsAnswered n (suc k) (echo_round answer s)
        (subst (IsOpen (suc k)) (sym (round-answer k s v)) (next-IsOpen k s v (omega (arith, h))))
        (omega (arith, h))

  -- As many rounds as there are samples answer all of them, if the limit does not pass.
  pub echo_lem :
      (nows : ℕ → List ℕ) (limit start : ℕ)
      → ((k : ℕ) → WithinLimit limit start (nows k))
      → 0 < samples
      → IsAnswered samples
          (timed_rounds answer nows limit start samples (send_next samples clock make new_bench))
  echo_lem nows limit start within h =
      let e : suc (samples - 1) ≡ samples = omega arith in
      let begun = send_next samples clock make new_bench in
      subst (IsAnswered samples)
        (sym (timed_rounds-within answer nows limit start samples begun within))
        (subst (λ n. IsAnswered samples (echo_rounds answer n begun)) e
          (echo_rounds-IsAnswered (samples - 1) 0 _ (start-IsOpen h) (omega arith)))

module _ (host : Host) (l : IsHost host) (samples : ℕ) (clock : ℕ → ℕ) where
  -- A request with a sequence number is answered as that number.
  message_answers :
      (size w : ℕ) (s : Bench (List ℕ))
      → word_size ≤ size
      → w < 2 ^ 32
      → on_message host samples clock size success (make_payload host size w) s
        ≡ on_sequence samples clock (make_payload host size) w s
  unfolding on_message
  message_answers size w s h k =
      let (e, f, _) = make_payload_lem host l size w h k in
      let m = make_payload host size w in
      let to = on_sequence samples clock (make_payload host size) w s in
      if_cases (λ t. t ≡ to) (ltb (length m) word_size) (λ g. absurd (ground (arith, e)))
        (λ _. ap (λ n. on_sequence samples clock (make_payload host size) n s) f)

  -- With a peer that echoes each message, the WebSocket benchmark with payloads of at least four
  -- bytes and at least one sample, whose timeout thread never finds that the limit has passed, ends
  -- after as many rounds as there are samples: completed without a failure, with every sample sent
  -- once and answered, and no request left open.
  pub echo_messages_lem :
      (nows : ℕ → List ℕ) (limit start : ℕ)
      → ((k : ℕ) → WithinLimit limit start (nows k))
      → (size : ℕ) → word_size ≤ size
      → 0 < samples
      → IsAnswered samples (
          timed_rounds
            (on_message host samples clock size success)
            nows
            limit
            start
            samples
            (send_next samples clock (make_payload host size) new_bench))
  echo_messages_lem nows limit start within size h =
      echo_lem samples clock (make_payload host size) (on_message host samples clock size success)
        (λ w s k. message_answers size w s h k) nows limit start within
