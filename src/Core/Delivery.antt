-- ===== src/Core/Delivery.antt =====
-- What reaches a read handler: only `notify_read` hands anything over.
use transit_session.Base.{
  ◌≡◌, refl, sym, ap, ◌∙◌, Option, none, some, List, [], ◌∷◌, ◌++◌, append-nil, option_cases,
}
use transit_session.Errors.{ErrorCode}
use transit_session.Core.{Session, Derived, Call, close_session, schedule_operations, notify_read}
use transit_session.Core.Trace.{deliveries}
use transit_session.Core.Preserve.{Preserves, schedule_operations-Preserves, run_calls-Preserves}

-- A result goes to the handler that is set.
abbrev pub handed {ℓ κ} : {H : Type ℓ} {A : Type κ} → Option H → A → List A
handed none a = []
handed (some h) a = a ∷ []

module _ {R W H D : Type 0} where
  abbrev pub Delivered : List (ErrorCode × R) → Session R W H D → Type 0
  Delivered k s = deliveries s.trace ≡ k

  -- Hooks that call no handler.
  abbrev pub IsQuiet : Derived R W H D → Type 0
  IsQuiet derived = (k : List (ErrorCode × R)) → Preserves derived (Delivered k)

module _ {R W H D : Type 0} {derived : Derived R W H D} (quiet : IsQuiet derived) where
  pub deliveries-schedule_operations :
      (s : Session R W H D) → deliveries (schedule_operations derived s).trace ≡ deliveries s.trace
  deliveries-schedule_operations s =
      schedule_operations-Preserves (quiet (deliveries s.trace)) s refl

  pub deliveries-close_session :
      (s : Session R W H D)
      → deliveries (close_session derived.close_transport s).trace ≡ deliveries s.trace
  deliveries-close_session s = (quiet (deliveries s.trace)).close s refl

  pub deliveries-notify_read :
      {X : Type 0} (run_own : X → Session R W H D → Session R W H D)
      → ((k : List (ErrorCode × R)) (x : X) (s : Session R W H D)
          → Delivered k s
          → Delivered k (run_own x s))
      → (react : H → ErrorCode → R → List (Call W H X)) (ec : ErrorCode) (value : R)
        (s : Session R W H D)
      → deliveries (notify_read derived run_own react ec value s).trace
        ≡ deliveries s.trace ++ handed s.read_handler (ec, value)
  unfolding notify_read
  deliveries-notify_read run_own own react ec value s =
      option_cases (Delivered (deliveries s.trace ++ handed s.read_handler (ec, value)))
        s.read_handler
        (λ e. sym (
          ap (λ o. deliveries s.trace ++ handed o (ec, value)) e ∙ append-nil (deliveries s.trace)))
        (λ h e.
          run_calls-Preserves (quiet _) (own _) (react h ec value) _
            (sym (ap (λ o. deliveries s.trace ++ handed o (ec, value)) e)))
