-- ===== src/Example/Options.antt =====
-- The command lines of the benchmarks: the loop of `parse_options`, which their sources share, and
-- `Options` and its branches of example/websocket_benchmark.cpp. What `std::stoull` and `std::stoul`
-- make of a text, both with 64 bits, is a parameter; `none` is the exception.
use Prim.Native.String.{String}
use text.Mathlib.Text.{◌==◌}
use transit_session.Base.{
  ℕ, ◌%◌, ◌^◌, ◌<◌, Bool, true, false, not, ◌||◌, ◌&&◌, Option, none, some, List, [], ◌∷◌, ltb,
  if◌then◌else◌,
}
use transit_session.Example.Payload.{word_size}
pub mod Accepted
pub mod Serial
pub mod Can
pub mod Programs

-- What one round of the loop over `argv` does: it goes on behind the value of an option, or behind a
-- flag, or it returns false.
pub data Round (O : Type 0) : Type 0 where
  behind_value behind_flag : O → Round O
  refused : Round O

-- `arg == name && i + 1 < argc`, with the value.
abbrev pub given : String → String → Option String → Option String
given arg name value = if arg == name then value else none

-- A number that is asked for, or false.
abbrev pub numbered : {O : Type 0} → Option ℕ → (ℕ → O) → Round O
numbered none f = refused
numbered (some n) f = behind_value (f n)

-- `for (int i = 1; i < argc; ++i)`.
module _ {O : Type 0} (round : String → Option String → O → Round O) where
  abbrev pub parse_all : List String → O → Option O
  parse_all [] o = some o
  parse_all (arg ∷ []) o = elim (round arg none o) [
    | behind_value p ↦ some p
    | behind_flag p ↦ some p
    | refused ↦ none
  ]
  parse_all (arg ∷ value ∷ rest) o = elim (round arg (some value) o) [
    | behind_value p ↦ parse_all rest p
    | behind_flag p ↦ parse_all (value ∷ rest) p
    | refused ↦ none
  ]

-- The options of the WebSocket benchmark. `timeout` is the number of milliseconds as it was read.
pub record Options : Type 0 where
  pub host : String
  pub target : String
  pub listen_address : String
  pub port : ℕ
  pub payload_size : ℕ
  pub samples : ℕ
  pub timeout : ℕ
  pub binary_mode : Bool
  pub external_server : Bool

abbrev pub default_options : Options
default_options = record {
  host = "127.0.0.1";
  target = "/";
  listen_address = "127.0.0.1";
  port = 9002;
  payload_size = 32;
  samples = 1000;
  timeout = 1000;
  binary_mode = true;
  external_server = false;
}

module _ (stoull : String → Option ℕ) where
  -- The number is cast to so many bits without a test.
  abbrev pub parse_unsigned : ℕ → String → Option ℕ
  parse_unsigned bits text = elim (stoull text) [ none ↦ none | some n ↦ some (n % 2 ^ bits) ]

  unfoldable pub options_round : String → Option String → Options → Round Options
  options_round arg value o = elim (given arg "--host" value) [
    | some v ↦ behind_value (record o { host = v })
    | none ↦ elim (given arg "--port" value) [
      | some v ↦ numbered (parse_unsigned 16 v) (λ n. record o { port = n })
      | none ↦ elim (given arg "--target" value) [
        | some v ↦ behind_value (record o { target = v })
        | none ↦ elim (given arg "--listen-address" value) [
          | some v ↦ behind_value (record o { listen_address = v })
          | none ↦ elim (given arg "--payload" value) [
            | some v ↦ numbered (stoull v) (λ n. record o { payload_size = n })
            | none ↦ elim (given arg "--samples" value) [
              | some v ↦ numbered (stoull v) (λ n. record o { samples = n })
              | none ↦ elim (given arg "--timeout-ms" value) [
                | some v ↦ numbered (stoull v) (λ n. record o { timeout = n })
                | none ↦
                    if arg == "--text"
                    then behind_flag (record o { binary_mode = false })
                    else (if arg == "--external-server"
                        then behind_flag (record o { external_server = true })
                        else refused)
              ]
            ]
          ]
        ]
      ]
    ]
  ]

  unfoldable pub parse_options : List String → Option Options
  parse_options args = elim (parse_all options_round args default_options) [
    | none ↦ none
    | some o ↦ if not (ltb o.payload_size word_size) && ltb 0 o.samples then some o else none
  ]
