-- ===== src/Example/Options/Can.antt =====
-- The command line of example/can_benchmark.cpp: `Options` and `parse_options`.
use Prim.Native.String.{String}
use text.Mathlib.Text.{◌==◌}
use transit_session.Base.{
  ℕ, ◌^◌, ◌<◌, ◌≡◌, Bool, true, false, Option, none, some, List, arith, ltb, if◌then◌else◌,
  if_cases, option_cases, subst,
}
use transit_session.Example.Options.{
  Round, behind_value, behind_flag, refused, given, numbered, parse_unsigned, parse_all,
}
use transit_session.Example.Options.Accepted.{
  Leaves, numbered-Leaves, value-Leaves, parse_unsigned-fits, parse_all-keeps,
}

pub record CanOptions : Type 0 where
  pub interface_name : String
  pub can_id : ℕ
  pub samples : ℕ
  pub fd_frame : Bool
  pub timeout : ℕ

abbrev pub default_can_options : CanOptions
default_can_options = record {
  interface_name = "can0";
  can_id = 0x123;
  samples = 1000;
  fd_frame = false;
  timeout = 1000;
}

module _ (stoull : String → Option ℕ) where
  unfoldable pub can_round : String → Option String → CanOptions → Round CanOptions
  can_round arg value o = elim (given arg "--if" value) [
    | some v ↦ behind_value (record o { interface_name = v })
    | none ↦ elim (given arg "--id" value) [
      | some v ↦ numbered (parse_unsigned stoull 32 v) (λ n. record o { can_id = n })
      | none ↦ elim (given arg "--samples" value) [
        | some v ↦ numbered (stoull v) (λ n. record o { samples = n })
        | none ↦
            if arg == "--fd"
            then behind_flag (record o { fd_frame = true })
            else elim (given arg "--timeout-ms" value) [
              | some v ↦ numbered (stoull v) (λ n. record o { timeout = n })
              | none ↦ refused
            ]
      ]
    ]
  ]

  unfoldable pub parse_can_options : List String → Option CanOptions
  parse_can_options args = elim (parse_all can_round args default_can_options) [
    | none ↦ none
    | some o ↦ if ltb 0 o.samples then some o else none
  ]

  abbrev FitsId : CanOptions → Type 0
  FitsId o = o.can_id < 2 ^ 32

  can_round-Leaves :
      (arg : String) (value : Option String) (o : CanOptions)
      → FitsId o
      → Leaves FitsId (can_round arg value o)
  unfolding can_round
  can_round-Leaves arg value o h =
      value-Leaves FitsId (given arg "--if" value) _ _ (λ v. h)
        (value-Leaves FitsId (given arg "--id" value) _ _
          (λ v.
            numbered-Leaves FitsId (parse_unsigned stoull 32 v) (λ n. record o { can_id = n })
              (λ n e. parse_unsigned-fits stoull 32 (λ k. omega arith) v n e))
          (value-Leaves FitsId (given arg "--samples" value) _ _
            (λ v. numbered-Leaves FitsId (stoull v) (λ n. record o { samples = n }) (λ n e. h))
            (if_cases (Leaves FitsId) (arg == "--fd") (λ _. h)
              (λ _.
                value-Leaves FitsId (given arg "--timeout-ms" value) _ _
                  (λ v.
                    numbered-Leaves FitsId (stoull v) (λ n. record o { timeout = n }) (λ n e. h))
                  tt))))

  abbrev AcceptsId : CanOptions → Type 0
  AcceptsId q = FitsId q × (0 < q.samples)

  -- An accepted command line has an identifier of 32 bits and at least one sample.
  pub parse_can_options_lem :
      (args : List String) (o : CanOptions) → parse_can_options args ≡ some o → AcceptsId o
  unfolding parse_can_options
  parse_can_options_lem args o =
      option_cases (λ (r : Option CanOptions). r ≡ some o → AcceptsId o)
        (parse_all can_round args default_can_options) (λ _ e. cc)
        (λ p f e.
          let fits =
            parse_all-keeps FitsId can_round can_round-Leaves args default_can_options p
              (omega arith) f in
          if_cases (λ (r : Option CanOptions). r ≡ some o → AcceptsId o) (ltb 0 p.samples)
            (λ t g. let same : p ≡ o = cc in subst AcceptsId same (fits, ground arith)) (λ t g. cc)
            e)
