-- ===== src/Example/Options/Serial.antt =====
-- The command line of example/serial_benchmark.cpp: `Options` and `parse_options`.
use Prim.Native.String.{String}
use transit_session.Base.{
  ℕ, ◌^◌, ◌≤◌, ◌<◌, ◌≡◌, not, ◌&&◌, Option, none, some, List, arith, ltb, if◌then◌else◌, if_cases,
  option_cases, subst,
}
use transit_session.Example.Payload.{word_size}
use transit_session.Example.Options.{
  Round, behind_value, refused, given, numbered, parse_unsigned, parse_all,
}
use transit_session.Example.Options.Accepted.{
  Leaves, numbered-Leaves, value-Leaves, parse_unsigned-fits, parse_all-keeps,
}

pub record SerialOptions : Type 0 where
  pub device_path : String
  pub baud_rate : ℕ
  pub payload_size : ℕ
  pub samples : ℕ
  pub timeout : ℕ

abbrev pub default_serial_options : SerialOptions
default_serial_options = record {
  device_path = "/dev/ttyACM0";
  baud_rate = 115200;
  payload_size = 32;
  samples = 1000;
  timeout = 1000;
}

module _ (stoull : String → Option ℕ) where
  unfoldable pub serial_round : String → Option String → SerialOptions → Round SerialOptions
  serial_round arg value o = elim (given arg "--device" value) [
    | some v ↦ behind_value (record o { device_path = v })
    | none ↦ elim (given arg "--baud" value) [
      | some v ↦ numbered (parse_unsigned stoull 32 v) (λ n. record o { baud_rate = n })
      | none ↦ elim (given arg "--payload" value) [
        | some v ↦ numbered (stoull v) (λ n. record o { payload_size = n })
        | none ↦ elim (given arg "--samples" value) [
          | some v ↦ numbered (stoull v) (λ n. record o { samples = n })
          | none ↦ elim (given arg "--timeout-ms" value) [
            | some v ↦ numbered (stoull v) (λ n. record o { timeout = n })
            | none ↦ refused
          ]
        ]
      ]
    ]
  ]

  unfoldable pub parse_serial_options : List String → Option SerialOptions
  parse_serial_options args = elim (parse_all serial_round args default_serial_options) [
    | none ↦ none
    | some o ↦ if not (ltb o.payload_size word_size) && ltb 0 o.samples then some o else none
  ]

  abbrev FitsBaud : SerialOptions → Type 0
  FitsBaud o = o.baud_rate < 2 ^ 32

  serial_round-Leaves :
      (arg : String) (value : Option String) (o : SerialOptions)
      → FitsBaud o
      → Leaves FitsBaud (serial_round arg value o)
  unfolding serial_round
  serial_round-Leaves arg value o h =
      value-Leaves FitsBaud (given arg "--device" value) _ _ (λ v. h)
        (value-Leaves FitsBaud (given arg "--baud" value) _ _
          (λ v.
            numbered-Leaves FitsBaud (parse_unsigned stoull 32 v) (λ n. record o { baud_rate = n })
              (λ n e. parse_unsigned-fits stoull 32 (λ k. omega arith) v n e))
          (value-Leaves FitsBaud (given arg "--payload" value) _ _
            (λ v.
              numbered-Leaves FitsBaud (stoull v) (λ n. record o { payload_size = n }) (λ n e. h))
            (value-Leaves FitsBaud (given arg "--samples" value) _ _
              (λ v. numbered-Leaves FitsBaud (stoull v) (λ n. record o { samples = n }) (λ n e. h))
              (value-Leaves FitsBaud (given arg "--timeout-ms" value) _ _
                (λ v.
                  numbered-Leaves FitsBaud (stoull v) (λ n. record o { timeout = n }) (λ n e. h))
                tt))))

  abbrev AcceptsBaud : SerialOptions → Type 0
  AcceptsBaud q = FitsBaud q × (word_size ≤ q.payload_size) × (0 < q.samples)

  -- An accepted command line has a baud rate of 32 bits, payloads with room for a sequence number
  -- and at least one sample.
  pub parse_serial_options_lem :
      (args : List String) (o : SerialOptions) → parse_serial_options args ≡ some o → AcceptsBaud o
  unfolding parse_serial_options
  parse_serial_options_lem args o =
      option_cases (λ (r : Option SerialOptions). r ≡ some o → AcceptsBaud o)
        (parse_all serial_round args default_serial_options) (λ _ e. cc)
        (λ p f e.
          let fits =
            parse_all-keeps FitsBaud serial_round serial_round-Leaves args default_serial_options p
              (omega arith) f in
          if_cases (λ (r : Option SerialOptions). r ≡ some o → AcceptsBaud o)
            (not (ltb p.payload_size word_size) && ltb 0 p.samples)
            (λ t g.
              let same : p ≡ o = cc in subst AcceptsBaud same (fits, ground arith, ground arith))
            (λ t g. cc) e)
