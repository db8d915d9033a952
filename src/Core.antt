-- ===== src/Core.antt =====
-- core/async_transport_session.hpp: the flags, the send queue and the scheduling that the
-- protocol sessions inherit. A `Session` is the object, with the fields of its derived class in
-- `own` and with the events that the code brought about in `trace`, newest first.
-- A function here is what runs on the strand: `dispatch` made on the strand runs at once, and
-- each call from elsewhere is a step of its own (Core/Machine).
use transit_session.Base.{
  Bool, true, false, not, Option, none, some, List, [], ◌∷◌, ◌++◌, if◌then◌else◌,
}
use transit_session.Errors.{ErrorCode}
pub mod Arrival
pub mod Trace
pub mod Preserve
pub mod Machine
pub mod Channel
pub mod Invariant
pub mod Ended
pub mod Growth
pub mod Settled
pub mod Delivery
pub mod QueueTest

pub data Event (R W : Type 0) : Type 0 where
  accepted : W → Event R W
  read_started : Event R W
  read_finished : ErrorCode → Event R W
  notified : ErrorCode → R → Event R W
  write_started : W → Event R W
  write_finished : ErrorCode → Event R W
  transport_closed : Event R W
  -- Of a serial port: its operations were cancelled; half-duplex was switched on or off.
  transport_cancelled : Event R W
  duplex_changed : Bool → Event R W

-- `H` stands for the callable objects that a caller passes as read handlers.
pub record Session (R W H D : Type 0) : Type 0 where
  pub read_handler : Option H
  pub write_queue : List W
  pub read_enabled : Bool
  pub read_in_progress : Bool
  pub write_in_progress : Bool
  pub closed : Bool
  pub own : D
  pub trace : List (Event R W)

-- What `schedule_operations` and `close` call through the `Derived` pointer.
pub record Derived (R W H D : Type 0) : Type 0 where
  pub can_start_read : Session R W H D → Bool
  pub can_start_write : Session R W H D → Bool
  pub do_read : Session R W H D → Session R W H D
  pub do_write : Session R W H D → Session R W H D
  pub close_transport : Session R W H D → Session R W H D

-- A call of the public interface; `X` holds those that a derived class adds.
pub data Call (W H X : Type 0) : Type 0 where
  set_read_handler : Option H → Call W H X
  start_reading stop_reading close : Call W H X
  send : W → Call W H X
  own_call : X → Call W H X

module _ {R W H D : Type 0} where
  -- A session as its constructor leaves it.
  unfoldable pub construct : D → Session R W H D
  construct d = record {
    read_handler = none;
    write_queue = [];
    read_enabled = false;
    read_in_progress = false;
    write_in_progress = false;
    closed = false;
    own = d;
    trace = [];
  }

  -- Ghost: the event has taken place.
  abbrev pub log : Event R W → Session R W H D → Session R W H D
  log e s = record s { trace = e ∷ s.trace }

  abbrev pub has_pending_writes : Session R W H D → Bool
  has_pending_writes s = elim s.write_queue [ [] ↦ false | _ ∷ _ ↦ true ]

  abbrev pub current_write : Session R W H D → Option W
  current_write s = elim s.write_queue [ [] ↦ none | w ∷ _ ↦ some w ]

  abbrev pub consume_write : Session R W H D → Session R W H D
  consume_write s = record s { write_queue = elim s.write_queue [ [] ↦ [] | _ ∷ q ↦ q ] }

  abbrev pub mark_read_started : Session R W H D → Session R W H D
  mark_read_started s = record s { read_in_progress = true }

  abbrev pub mark_read_finished : Session R W H D → Session R W H D
  mark_read_finished s = record s { read_in_progress = false }

  abbrev pub mark_write_started : Session R W H D → Session R W H D
  mark_write_started s = record s { write_in_progress = true }

  abbrev pub mark_write_finished : Session R W H D → Session R W H D
  mark_write_finished s = record s { write_in_progress = false }

  -- The body of `close`, with `close_transport` of the derived class.
  unfoldable pub close_session :
      (Session R W H D → Session R W H D) → Session R W H D → Session R W H D
  close_session close_transport s =
      if s.closed
      then s
      else close_transport (record s { read_enabled = false; write_queue = []; closed = true })

module _ {R W H D : Type 0} (derived : Derived R W H D) where
  -- The two tests of `schedule_operations`, in their order.
  unfoldable pub try_write : Session R W H D → Session R W H D
  try_write s = if derived.can_start_write s then derived.do_write s else s

  unfoldable pub try_read : Session R W H D → Session R W H D
  try_read s = if derived.can_start_read s then derived.do_read s else s

  unfoldable pub schedule_operations : Session R W H D → Session R W H D
  schedule_operations s = try_read (try_write s)

  unfoldable pub enqueue_write : W → Session R W H D → Session R W H D
  enqueue_write w s =
      if s.closed
      then s
      else schedule_operations
          (log (accepted w) (record s { write_queue = s.write_queue ++ w ∷ [] }))

  module _ {X : Type 0} (run_own : X → Session R W H D → Session R W H D) where
    -- A public call, as it runs on the strand.
    unfoldable pub run_call : Call W H X → Session R W H D → Session R W H D
    run_call (set_read_handler h) s = record s { read_handler = h }
    run_call start_reading s =
        if s.closed then s else schedule_operations (record s { read_enabled = true })
    run_call stop_reading s = record s { read_enabled = false }
    run_call close s = close_session derived.close_transport s
    run_call (send w) s = enqueue_write w s
    run_call (own_call x) s = run_own x s

    -- The calls that a read handler makes while it runs.
    unfoldable pub run_calls : List (Call W H X) → Session R W H D → Session R W H D
    run_calls [] s = s
    run_calls (c ∷ cs) s = run_calls cs (run_call c s)

    -- `react` is the behaviour of the callers' handlers: the calls that each makes on a result.
    module _ (react : H → ErrorCode → R → List (Call W H X)) where
      unfoldable pub notify_read : ErrorCode → R → Session R W H D → Session R W H D
      notify_read ec value s = elim s.read_handler [
        | none ↦ s
        | some h ↦ run_calls (react h ec value) (log (notified ec value) s)
      ]
