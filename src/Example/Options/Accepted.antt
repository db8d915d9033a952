-- ===== src/Example/Options/Accepted.antt =====
-- What a command line that is accepted says of the run.
use Prim.Native.String.{String}
use text.Mathlib.Text.{◌==◌}
use transit_session.Base.{
  ℕ, ◌%◌, ◌^◌, ◌≤◌, ◌<◌, ◌≡◌, refl, not, ◌&&◌, Option, none, some, List, [], ◌∷◌, ltb, arith,
  if_cases, option_cases, subst,
}
use transit_session.Errors.{success}
use transit_session.Example.Payload.{Host, IsHost, word_size, make_payload}
use transit_session.Example.Rounds.{new_bench, send_next, on_message}
use transit_session.Example.Rounds.Echoed.{WithinLimit, IsAnswered, timed_rounds, echo_messages_lem}
use transit_session.Example.Options.{
  Round, behind_value, behind_flag, refused, given, numbered, parse_all, Options, default_options,
  parse_unsigned, options_round, parse_options,
}

-- A property of the options that a round leaves, and of those that are accepted.
module _ {O : Type 0} (P : O → Type 0) where
  abbrev pub Leaves : Round O → Type 0
  Leaves (behind_value o) = P o
  Leaves (behind_flag o) = P o
  Leaves refused = Unit {0}

  pub numbered-Leaves :
      (n : Option ℕ) (f : ℕ → O) → ((k : ℕ) → n ≡ some k → P (f k)) → Leaves (numbered n f)
  numbered-Leaves none f h = tt
  numbered-Leaves (some k) f h = h k refl

  pub value-Leaves :
      (v : Option String) (x : Round O) (f : String → Round O)
      → ((a : String) → Leaves (f a))
      → Leaves x
      → Leaves (elim v [ none ↦ x | some a ↦ f a ])
  value-Leaves v x f h k = option_cases Leaves v (λ _. k) (λ a _. h a)

  -- A round that leaves the property, and a rest that keeps it.
  round-keeps :
      {p : O} (r : Round O) (f g : O → Option O)
      → ((o : O) → P o → f o ≡ some p → P p)
      → ((o : O) → P o → g o ≡ some p → P p)
      → Leaves r
      → elim r [ behind_value o ↦ f o | behind_flag o ↦ g o | refused ↦ none ] ≡ some p
      → P p
  round-keeps (behind_value o) f g h k w e = h o w e
  round-keeps (behind_flag o) f g h k w e = k o w e
  round-keeps refused f g h k w e = cc

  pub parse_all-keeps :
      (round : String → Option String → O → Round O)
      → ((arg : String) (value : Option String) (o : O) → P o → Leaves (round arg value o))
      → (args : List String) (o p : O) → P o
      → parse_all round args o ≡ some p
      → P p
  parse_all-keeps round keeps [] o p h e = subst P (cc) h
  parse_all-keeps round keeps (arg ∷ []) o p h e =
      round-keeps (round arg none o) some some (λ q w f. subst P (cc) w) (λ q w f. subst P (cc) w)
        (keeps arg none o h) e
  parse_all-keeps round keeps (arg ∷ value ∷ rest) o p h e =
      round-keeps (round arg (some value) o) (parse_all round rest) (parse_all round (value ∷ rest))
        (λ q w f. parse_all-keeps round keeps rest q p w f)
        (λ q w f. parse_all-keeps round keeps (value ∷ rest) q p w f) (keeps arg (some value) o h) e

module _ (stoull : String → Option ℕ) where
  pub parse_unsigned-fits :
      (bits : ℕ)
      → ((k : ℕ) → k % 2 ^ bits < 2 ^ bits)
      → (v : String) (n : ℕ) → parse_unsigned stoull bits v ≡ some n
      → n < 2 ^ bits
  parse_unsigned-fits bits small v n =
      option_cases (λ (r : Option ℕ). r ≡ some n → n < 2 ^ bits) (stoull v) (λ _ e. cc)
        (λ k _ e. let same : k % 2 ^ bits ≡ n = cc in subst (λ m. m < 2 ^ bits) same (small k))

module _ (stoull : String → Option ℕ) where
  -- The port fits 16 bits.
  abbrev FitsPort : Options → Type 0
  FitsPort o = o.port < 2 ^ 16

  options_round-Leaves :
      (arg : String) (value : Option String) (o : Options)
      → FitsPort o
      → Leaves FitsPort (options_round stoull arg value o)
  unfolding options_round
  options_round-Leaves arg value o h =
      value-Leaves FitsPort (given arg "--host" value) _ _ (λ v. h)
        (value-Leaves FitsPort (given arg "--port" value) _ _
          (λ v.
            numbered-Leaves FitsPort (parse_unsigned stoull 16 v) (λ n. record o { port = n })
              (λ n e. parse_unsigned-fits stoull 16 (λ k. omega arith) v n e))
          (value-Leaves FitsPort (given arg "--target" value) _ _ (λ v. h)
            (value-Leaves FitsPort (given arg "--listen-address" value) _ _ (λ v. h)
              (value-Leaves FitsPort (given arg "--payload" value) _ _
                (λ v.
                  numbered-Leaves FitsPort (stoull v) (λ n. record o { payload_size = n })
                    (λ n e. h))
                (value-Leaves FitsPort (given arg "--samples" value) _ _
                  (λ v.
                    numbered-Leaves FitsPort (stoull v) (λ n. record o { samples = n }) (λ n e. h))
                  (value-Leaves FitsPort (given arg "--timeout-ms" value) _ _
                    (λ v.
                      numbered-Leaves FitsPort (stoull v) (λ n. record o { timeout = n })
                        (λ n e. h))
                    (if_cases (Leaves FitsPort) (arg == "--text") (λ _. h)
                      (λ _.
                        if_cases (Leaves FitsPort) (arg == "--external-server") (λ _. h)
                          (λ _. tt)))))))))

  pub accepted :
      (args : List String) (o : Options)
      → parse_options stoull args ≡ some o
      → (o.port < 2 ^ 16) × (word_size ≤ o.payload_size) × (0 < o.samples)
  unfolding parse_options
  accepted args o =
      option_cases
        (λ (r : Option Options).
          r ≡ some o → FitsPort o × (word_size ≤ o.payload_size) × (0 < o.samples))
        (parse_all (options_round stoull) args default_options) (λ _ e. cc)
        (λ p f e.
          let port =
            parse_all-keeps FitsPort (options_round stoull) options_round-Leaves args
              default_options p (omega arith) f in
          if_cases
            (λ (r : Option Options).
              r ≡ some o → FitsPort o × (word_size ≤ o.payload_size) × (0 < o.samples))
            (not (ltb p.payload_size word_size) && ltb 0 p.samples)
            (λ t g.
              let same : p ≡ o = cc in
              subst (λ q. FitsPort q × (word_size ≤ q.payload_size) × (0 < q.samples)) same
                (port, ground arith, ground arith))
            (λ t g. cc) e)

  -- A command line that is accepted has a port of 16 bits, payloads with room for a sequence number
  -- and at least one sample; and with an echoing peer, and a timeout thread that looks at the clock
  -- before each answer, however often, and never finds that the limit has passed, its run ends with
  -- every sample answered.
  pub parse_options_lem :
      (host : Host)
      → IsHost host
      → (clock : ℕ → ℕ) (nows : ℕ → List ℕ) (limit start : ℕ)
      → ((k : ℕ) → WithinLimit limit start (nows k))
      → (args : List String) (o : Options) → parse_options stoull args ≡ some o
      → (o.port < 2 ^ 16)
        × (word_size ≤ o.payload_size)
        × (0 < o.samples)
        × IsAnswered o.samples (
            timed_rounds
              (on_message host o.samples clock o.payload_size success)
              nows
              limit
              start
              o.samples
              (send_next o.samples clock (make_payload host o.payload_size) new_bench))
  unfolding parse_options
  parse_options_lem host l clock nows limit start within args o e =
      let (port, size, some_samples) = accepted args o e in
      (
        port,
        size,
        some_samples,
        echo_messages_lem host l o.samples clock nows limit start within o.payload_size size
            some_samples,
      )
