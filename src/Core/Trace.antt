-- ===== src/Core/Trace.antt =====
-- Readings of a trace: what is under way, what was accepted and sent, and the rules that
-- Boost.Asio sets for the operations on one stream.
use transit_session.Base.{ℕ, Bool, false, true, ◌+◌, ◌-◌, ◌≡◌, List, [], ◌∷◌, ◌++◌}
use transit_session.Errors.{ErrorCode}
use transit_session.Core.{
  Event, accepted, read_started, read_finished, notified, write_started, write_finished,
  transport_closed, transport_cancelled, duplex_changed,
}

module _ {R W : Type 0} where
  -- Reads that were started and have not completed.
  abbrev pub pending_reads : List (Event R W) → ℕ
  pending_reads [] = 0
  pending_reads (read_started ∷ t) = pending_reads t + 1
  pending_reads (read_finished _ ∷ t) = pending_reads t - 1
  pending_reads (_ ∷ t) = pending_reads t

  abbrev pub pending_writes : List (Event R W) → ℕ
  pending_writes [] = 0
  pending_writes (write_started _ ∷ t) = pending_writes t + 1
  pending_writes (write_finished _ ∷ t) = pending_writes t - 1
  pending_writes (_ ∷ t) = pending_writes t

  abbrev pub closings : List (Event R W) → ℕ
  closings [] = 0
  closings (transport_closed ∷ t) = closings t + 1
  closings (_ ∷ t) = closings t

  -- The messages that were queued, and those whose write was started, oldest first.
  abbrev pub messages : List (Event R W) → List W
  messages [] = []
  messages (accepted w ∷ t) = messages t ++ w ∷ []
  messages (_ ∷ t) = messages t

  abbrev pub writes : List (Event R W) → List W
  writes [] = []
  writes (write_started w ∷ t) = writes t ++ w ∷ []
  writes (_ ∷ t) = writes t

  -- Whether half-duplex is on.
  abbrev pub half_duplex_on : List (Event R W) → Bool
  half_duplex_on [] = false
  half_duplex_on (duplex_changed half ∷ t) = half
  half_duplex_on (_ ∷ t) = half_duplex_on t

  -- While half-duplex was on, no operation was started beside one of the other direction.
  abbrev pub IsExclusive : List (Event R W) → Type 0
  IsExclusive [] = Unit {0}
  IsExclusive (read_started ∷ t) = (half_duplex_on t ≡ true → pending_writes t ≡ 0) × IsExclusive t
  IsExclusive (write_started _ ∷ t) =
      (half_duplex_on t ≡ true → pending_reads t ≡ 0) × IsExclusive t
  IsExclusive (_ ∷ t) = IsExclusive t

  -- What the read handlers were given, oldest first.
  abbrev pub deliveries : List (Event R W) → List (ErrorCode × R)
  deliveries [] = []
  deliveries (notified ec value ∷ t) = deliveries t ++ (ec, value) ∷ []
  deliveries (_ ∷ t) = deliveries t

  -- The newest event is a read that completed.
  abbrev pub IsAfterRead : List (Event R W) → Type 0
  IsAfterRead [] = ⊥
  IsAfterRead (read_finished _ ∷ _) = Unit {0}
  IsAfterRead (_ ∷ _) = ⊥

  -- What an event asks of the trace before it.
  abbrev pub Allowed : Event R W → List (Event R W) → Type 0
  Allowed (accepted _) t = closings t ≡ 0
  Allowed read_started t = (pending_reads t ≡ 0) × (closings t ≡ 0)
  Allowed (read_finished _) t = pending_reads t ≡ 1
  Allowed (notified _ _) t = IsAfterRead t
  Allowed (write_started _) t = (pending_writes t ≡ 0) × (closings t ≡ 0)
  Allowed (write_finished _) t = pending_writes t ≡ 1
  Allowed transport_closed t = closings t ≡ 0
  Allowed transport_cancelled t = Unit {0}
  Allowed (duplex_changed _) t = Unit {0}

  -- Each event of the trace was allowed when it took place.
  abbrev pub IsDisciplined : List (Event R W) → Type 0
  IsDisciplined [] = Unit {0}
  IsDisciplined (e ∷ t) = Allowed e t × IsDisciplined t
