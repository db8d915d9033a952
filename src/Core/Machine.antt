-- ===== src/Core/Machine.antt =====
-- A session on its strand as a transition system: public calls and completions, one at a time, in
-- an order that the callers and the operating system choose.
use transit_session.Base.{◌<◌}
use transit_session.Errors.{ErrorCode}
use transit_session.Core.{Session, Derived, Call, run_call}
use transit_session.Core.Trace.{pending_reads, pending_writes}
use transit_session.Core.Preserve.{Preserves, run_call-Preserves}

-- `P` is what a read completion brings; `Arrives` is what the system promises of it.
pub record Machine (R W H X D P : Type 0) : Type 1 where
  pub derived : Derived R W H D
  pub run_own : X → Session R W H D → Session R W H D
  pub read_completed : P → Session R W H D → Session R W H D
  pub write_completed : ErrorCode → Session R W H D → Session R W H D
  pub Arrives : P → Session R W H D → Type 0

module _ {R W H X D P : Type 0} (m : Machine R W H X D P) where
  pub data Step (s : Session R W H D) : Session R W H D → Type 0 where
    calls : (c : Call W H X) → Step s (run_call m.derived m.run_own c s)
    read_completes :
        (p : P) → 0 < pending_reads s.trace → m.Arrives p s → Step s (m.read_completed p s)
    write_completes :
        (ec : ErrorCode) → 0 < pending_writes s.trace → Step s (m.write_completed ec s)

  pub data Reach (s : Session R W H D) : Session R W H D → Type 0 where
    here : Reach s s
    next : {t u : Session R W H D} → Reach s t → Step t u → Reach s u

  -- What has to be shown of each part for a property to hold of all that is reached.
  pub record Keeps (Q : Session R W H D → Type 0) : Type 0 where
    pub base : Preserves m.derived Q
    pub own : (x : X) (s : Session R W H D) → Q s → Q (m.run_own x s)
    pub read :
        (p : P) (s : Session R W H D)
        → Q s
        → 0 < pending_reads s.trace
        → m.Arrives p s
        → Q (m.read_completed p s)
    pub write :
        (ec : ErrorCode) (s : Session R W H D)
        → Q s
        → 0 < pending_writes s.trace
        → Q (m.write_completed ec s)

module _ {R W H X D P : Type 0} {m : Machine R W H X D P} {Q : Session R W H D → Type 0}
    (keeps : Keeps m Q) where
  pub Step-Keeps : {s t : Session R W H D} → Step m s t → Q s → Q t
  Step-Keeps {s} (calls c) q = run_call-Preserves keeps.base keeps.own c s q
  Step-Keeps {s} (read_completes p h a) q = keeps.read p s q h a
  Step-Keeps {s} (write_completes ec h) q = keeps.write ec s q h

  pub Reach-Keeps : {s t : Session R W H D} → Q s → Reach m s t → Q t
  Reach-Keeps q here = q
  Reach-Keeps q (next r st) = Step-Keeps st (Reach-Keeps q r)
