-- ===== src/Example/Programs/Finished.antt =====
-- The end of the benchmarks' `main`, behind `io_context.run`.
use transit_session.Base.{
  ℕ, ◌<◌, ◌≡◌, ◌⊎◌, inl, inr, refl, ap, ◌∙◌, true, Option, none, some, arith, if◌then◌else◌,
  if_cases, list_cases,
}
use transit_session.Websocket.Server.{WebSocketServer, stop}
use transit_session.Example.Stats.{Standard, Summary, print_summary}
use transit_session.Example.Rounds.{Bench}
use transit_session.Example.Rounds.Progress.{BenchInv}
use transit_session.Example.Echo.{EchoHandler}

-- What `main` returns, and the summary that it prints: `none` where it prints none, and where the
-- summary says that there are no samples.
unfoldable pub finish : Standard → {M : Type 0} → Bench M → ℕ × Option Summary
finish std s =
    let done = record s { completed = true } in
    if done.failed then (1, none) else (0, print_summary std done.stats)

-- The server of the WebSocket benchmark is stopped before.
unfoldable pub stop_server :
    Option (WebSocketServer EchoHandler) → Option (WebSocketServer EchoHandler)
stop_server server = elim server [ none ↦ none | some w ↦ some (stop w) ]

-- A run that keeps its invariant and has ended makes `main` return 1 and print no summary, or return 0
-- and print a summary that counts all samples.
pub finish_lem :
    (std : Standard) {M : Type 0} (samples : ℕ) (s : Bench M)
    → 0 < samples
    → BenchInv samples s
    → s.completed ≡ true
    → (finish std s ≡ (1, none))
      ⊎ ((z : Summary) × (finish std s ≡ (0, some z)) × (z.count ≡ samples))
unfolding finish print_summary
finish_lem std {M} samples s h v e =
    if_cases Ends s.failed (λ _. inl refl)
      (λ f.
        let all : s.received_count ≡ samples = v.succeeded e (ap (λ b. if b then 1 else 0) f) in
        list_cases (λ (z : Option Summary). Ends (0, z)) s.stats.samples
          (λ g. absurd (ground (arith, v.kept))) (λ x xs g. inr (_, refl, v.kept ∙ all)))
  where
    Ends : ℕ × Option Summary → Type 0
    Ends r = (r ≡ (1, none)) ⊎ ((z : Summary) × (r ≡ (0, some z)) × (z.count ≡ samples))
