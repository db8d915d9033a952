-- ===== src/Core/Growth.antt =====
-- The writes that were started stay started: whatever a session does adds to them at the end. When
-- nothing is left to do, all messages have been written.
use transit_session.Base.{
  ◌≡◌, inl, inr, false, sym, ap, ◌∙◌, List, [], ◌∷◌, ◌++◌, append-nil, append_assoc,
}
use transit_session.Core.{Session, Derived}
use transit_session.Core.Trace.{messages, writes}
use transit_session.Core.Channel.{owed}
use transit_session.Core.Invariant.{Inv}
use transit_session.Core.Settled.{Settled}
use transit_session.Core.Preserve.{Preserves}

-- A list that goes on behind another.
abbrev pub Extends {ℓ} : {A : Type ℓ} → List A → List A → Type ℓ
Extends {A} xs ys = (rest : List A) × (ys ≡ xs ++ rest)

module _ {ℓ} {A : Type ℓ} where
  pub Extends-refl : (xs : List A) → Extends xs xs
  Extends-refl xs = ([], sym (append-nil xs))

  pub Extends-snoc : (xs ys : List A) (y : A) → Extends xs ys → Extends xs (ys ++ y ∷ [])
  Extends-snoc xs ys y (rest, e) =
      (rest ++ y ∷ [], ap (λ l. l ++ y ∷ []) e ∙ append_assoc xs rest (y ∷ []))

  pub Extends-trans : (xs ys zs : List A) → Extends xs ys → Extends ys zs → Extends xs zs
  Extends-trans xs ys zs (rest, e) (more, f) =
      (rest ++ more, f ∙ ap (λ l. l ++ more) e ∙ append_assoc xs rest more)

module _ {R W H D : Type 0} where
  abbrev pub HasWritten : List W → Session R W H D → Type 0
  HasWritten ws s = Extends ws (writes s.trace)

  abbrev pub IsGrowing : Derived R W H D → Type 0
  IsGrowing derived = (ws : List W) → Preserves derived (HasWritten ws)

  -- An open session that is not writing has nothing left to send.
  pub messages-writes :
      (s : Session R W H D)
      → Inv s
      → Settled s
      → s.closed ≡ false
      → s.write_in_progress ≡ false
      → messages s.trace ≡ writes s.trace
  messages-writes s v w c n =
      let none_owed : owed s.write_in_progress s.write_queue ≡ [] = elim w.sending [
        | inl e ↦ absurd (cc)
        | inr (inl e) ↦ absurd (cc)
        | inr (inr e) ↦ ap (λ b. owed b s.write_queue) n ∙ e
      ] in
      v.ordered ∙ ap (◌++◌ (writes s.trace)) (v.queued c ∙ none_owed) ∙ append-nil (writes s.trace)
