-- ===== src/Example/Options/Programs.antt =====
-- The command lines of example/websocket_server.cpp and example/websocket_session.cpp: `Options` and
-- `parse_options`.
use Prim.Native.String.{String}
use text.Mathlib.Text.{◌==◌}
use transit_session.Base.{
  ℕ, ◌^◌, ◌<◌, ◌≡◌, Bool, true, false, Option, none, some, List, arith, if◌then◌else◌, if_cases,
}
use transit_session.Example.Options.{
  Round, behind_value, behind_flag, refused, given, numbered, parse_unsigned, parse_all,
}
use transit_session.Example.Options.Accepted.{
  Leaves, numbered-Leaves, value-Leaves, parse_unsigned-fits, parse_all-keeps,
}

pub record ServerOptions : Type 0 where
  pub bind_address : String
  pub port : ℕ
  pub binary_mode : Bool

abbrev pub default_server_options : ServerOptions
default_server_options = record { bind_address = "127.0.0.1"; port = 9002; binary_mode = false }

module _ (stoul : String → Option ℕ) where
  unfoldable pub server_round : String → Option String → ServerOptions → Round ServerOptions
  server_round arg value o = elim (given arg "--bind" value) [
    | some v ↦ behind_value (record o { bind_address = v })
    | none ↦ elim (given arg "--port" value) [
      | some v ↦ numbered (parse_unsigned stoul 16 v) (λ n. record o { port = n })
      | none ↦ if arg == "--binary" then behind_flag (record o { binary_mode = true }) else refused
    ]
  ]

  unfoldable pub parse_server_options : List String → Option ServerOptions
  parse_server_options args = parse_all server_round args default_server_options

  abbrev FitsServerPort : ServerOptions → Type 0
  FitsServerPort o = o.port < 2 ^ 16

  server_round-Leaves :
      (arg : String) (value : Option String) (o : ServerOptions)
      → FitsServerPort o
      → Leaves FitsServerPort (server_round arg value o)
  unfolding server_round
  server_round-Leaves arg value o h =
      value-Leaves FitsServerPort (given arg "--bind" value) _ _ (λ v. h)
        (value-Leaves FitsServerPort (given arg "--port" value) _ _
          (λ v.
            numbered-Leaves FitsServerPort (parse_unsigned stoul 16 v) (λ n. record o { port = n })
              (λ n e. parse_unsigned-fits stoul 16 (λ k. omega arith) v n e))
          (if_cases (Leaves FitsServerPort) (arg == "--binary") (λ _. h) (λ _. tt)))

  -- The port of an accepted command line has 16 bits.
  pub parse_server_options_lem :
      (args : List String) (o : ServerOptions)
      → parse_server_options args ≡ some o
      → o.port < 2 ^ 16
  unfolding parse_server_options
  parse_server_options_lem args o e =
      parse_all-keeps FitsServerPort server_round server_round-Leaves args default_server_options o
        (omega arith) e

pub record SessionOptions : Type 0 where
  pub host : String
  pub port : String
  pub target : String
  pub message : String

abbrev pub default_session_options : SessionOptions
default_session_options = record {
  host = "127.0.0.1";
  port = "9002";
  target = "/";
  message = "hello from TransitSession";
}

unfoldable pub session_round : String → Option String → SessionOptions → Round SessionOptions
session_round arg value o = elim (given arg "--host" value) [
  | some v ↦ behind_value (record o { host = v })
  | none ↦ elim (given arg "--port" value) [
    | some v ↦ behind_value (record o { port = v })
    | none ↦ elim (given arg "--target" value) [
      | some v ↦ behind_value (record o { target = v })
      | none ↦ elim (given arg "--message" value) [
        | some v ↦ behind_value (record o { message = v })
        | none ↦ refused
      ]
    ]
  ]
]

unfoldable pub parse_session_options : List String → Option SessionOptions
parse_session_options args = parse_all session_round args default_session_options
