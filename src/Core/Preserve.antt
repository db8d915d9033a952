-- ===== src/Core/Preserve.antt =====
-- The rule by which a property of sessions is carried through the base class: it is enough that
-- the parts which a derived class supplies, and the assignments of the base class, keep it.
use transit_session.Base.{◌≡◌, true, false, Option, List, [], ◌∷◌, ◌++◌, if_cases, option_cases}
use transit_session.Errors.{ErrorCode}
use transit_session.Core.{
  accepted, notified, Session, Derived, Call, set_read_handler, start_reading, stop_reading, close,
  send, own_call, log, close_session, try_write, try_read, schedule_operations, enqueue_write,
  run_call, run_calls, notify_read,
}

module _ {R W H D : Type 0} where
  -- The fields of the base class are only ever changed in these ways.
  pub record Preserves (derived : Derived R W H D) (P : Session R W H D → Type 0) : Type 0 where
    pub do_read :
        (s : Session R W H D) → P s → derived.can_start_read s ≡ true → P (derived.do_read s)
    pub do_write :
        (s : Session R W H D) → P s → derived.can_start_write s ≡ true → P (derived.do_write s)
    pub close : (s : Session R W H D) → P s → P (close_session derived.close_transport s)
    pub accept :
        (s : Session R W H D) (w : W)
        → P s
        → s.closed ≡ false
        → P (log (accepted w) (record s { write_queue = s.write_queue ++ w ∷ [] }))
    pub enable :
        (s : Session R W H D) → P s → s.closed ≡ false → P (record s { read_enabled = true })
    pub disable : (s : Session R W H D) → P s → P (record s { read_enabled = false })
    pub handle : (s : Session R W H D) (h : Option H) → P s → P (record s { read_handler = h })

module _ {R W H D : Type 0} {derived : Derived R W H D} {P : Session R W H D → Type 0}
    (keeps : Preserves derived P) where
  pub try_write-Preserves : (s : Session R W H D) → P s → P (try_write derived s)
  unfolding try_write
  try_write-Preserves s p = if_cases P (derived.can_start_write s) (keeps.do_write s p) (λ _. p)

  pub try_read-Preserves : (s : Session R W H D) → P s → P (try_read derived s)
  unfolding try_read
  try_read-Preserves s p = if_cases P (derived.can_start_read s) (keeps.do_read s p) (λ _. p)

  pub schedule_operations-Preserves :
      (s : Session R W H D) → P s → P (schedule_operations derived s)
  unfolding schedule_operations
  schedule_operations-Preserves s p = try_read-Preserves _ (try_write-Preserves s p)

  pub enqueue_write-Preserves : (w : W) (s : Session R W H D) → P s → P (enqueue_write derived w s)
  unfolding enqueue_write
  enqueue_write-Preserves w s p =
      if_cases P s.closed (λ _. p) (λ e. schedule_operations-Preserves _ (keeps.accept s w p e))

  module _ {X : Type 0} {run_own : X → Session R W H D → Session R W H D}
      (own_keeps : (x : X) (s : Session R W H D) → P s → P (run_own x s)) where
    pub run_call-Preserves :
        (c : Call W H X) (s : Session R W H D) → P s → P (run_call derived run_own c s)
    unfolding run_call
    run_call-Preserves (set_read_handler h) s p = keeps.handle s h p
    run_call-Preserves start_reading s p =
        if_cases P s.closed (λ _. p) (λ e. schedule_operations-Preserves _ (keeps.enable s p e))
    run_call-Preserves stop_reading s p = keeps.disable s p
    run_call-Preserves close s p = keeps.close s p
    run_call-Preserves (send w) s p = enqueue_write-Preserves w s p
    run_call-Preserves (own_call x) s p = own_keeps x s p

    pub run_calls-Preserves :
        (cs : List (Call W H X)) (s : Session R W H D) → P s → P (run_calls derived run_own cs s)
    unfolding run_calls
    run_calls-Preserves [] s p = p
    run_calls-Preserves (c ∷ cs) s p = run_calls-Preserves cs _ (run_call-Preserves c s p)

    pub notify_read-Preserves :
        (react : H → ErrorCode → R → List (Call W H X)) (ec : ErrorCode) (value : R)
        (s : Session R W H D)
        → P s
        → P (log (notified ec value) s)
        → P (notify_read derived run_own react ec value s)
    unfolding notify_read
    notify_read-Preserves react ec value s p q =
        option_cases P s.read_handler (λ _. p) (λ f _. run_calls-Preserves (react f ec value) _ q)
