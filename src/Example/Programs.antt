-- ===== src/Example/Programs.antt =====
-- The `main` of the programs under example/, up to `io_context.run`: the command line, the
-- configuration, `create`, and the calls that the context runs first.
use transit_session.Base.{
  ℕ, ◌<◌, ◌≡◌, refl, Bool, not, Option, none, some, List, [], ◌∷◌, arith, ltb, if◌then◌else◌,
  if_cases,
}
use transit_session.Errors.{ErrorCode, failed}
use transit_session.Core.{Call, set_read_handler, start_reading, send}
use transit_session.Example.Rounds.{Bench, new_bench, send_next}
pub mod Can
pub mod Serial
pub mod Sessions
pub mod Websocket
pub mod WebsocketBenchmark
pub mod Greeting
pub mod Finished
pub mod Outcome
mod Tests

-- `main` has returned a code, or it calls `run` next.
pub data Begun (S : Type 0) : Type 0 where
  returned : ℕ → Begun S
  running : S → Begun S

-- `if (ec) { ...; return code; }` behind `create`, which returns a pointer when there is no error.
abbrev pub created_or : {S T : Type 0} → ℕ → Option S × ErrorCode → (S → Begun T) → Begun T
created_or code (p, ec) rest =
    if failed ec then returned code else elim p [ none ↦ returned code | some s ↦ rest s ]

abbrev pub created : {S T : Type 0} → Option S × ErrorCode → (S → Begun T) → Begun T
created = created_or 1

-- The handler that `main` sets.
pub data ReadHandler : Type 0 where
  on_read : ReadHandler

-- `send_next` gives its message to `send`.
abbrev pub sends : {W H X : Type 0} → List W → List (Call W H X)
sends [] = []
sends (w ∷ ws) = send w ∷ sends ws

abbrev pub first_calls : {W X : Type 0} → List W → List (Call W ReadHandler X)
first_calls requests = set_read_handler (some on_read) ∷ start_reading ∷ sends requests

-- The variables of `main` when it calls `run`.
pub record Main (O M S : Type 0) : Type 0 where
  pub options : O
  pub bench : Bench M
  pub session : S

-- The first `send_next` gives the request of sequence number 0 to the session.
pub first_request :
    {M : Type 0} (samples : ℕ) (clock : ℕ → ℕ) (make : ℕ → M)
    → 0 < samples
    → ((send_next samples clock make new_bench).in_flight ≡ make 0 ∷ [])
      × ((send_next samples clock make new_bench).sent_count ≡ 1)
unfolding send_next
first_request {M} samples clock make h =
    if_cases (λ (b : Bench M). (b.in_flight ≡ make 0 ∷ []) × (b.sent_count ≡ 1))
      (not (ltb 0 samples)) (λ e. absurd (ground arith)) (λ _. (refl, refl))

-- What `main` returns and what it leaves behind, by the two tests.
pub created-cases {κ} :
    {S T : Type 0} (P : Begun T → Type κ) {code : ℕ} (c : Option S × ErrorCode) (rest : S → Begun T)
    → P (returned code)
    → ((s : S) → c.0 ≡ some s → P (rest s))
    → P (created_or code c rest)
created-cases P (none, ec) rest h k = if_cases P (failed ec) (λ _. h) (λ _. h)
created-cases P (some s, ec) rest h k = if_cases P (failed ec) (λ _. h) (λ _. k s refl)
