-- ===== src/Legacy/Safety.antt =====
-- An `AsyncSession` keeps its invariant through its life, and what a close during a write leads to.
use transit_session.Base.{◌≡◌, true, false, arith}
use transit_session.Errors.{ErrorCode, success}
use transit_session.Core.{construct}
use transit_session.Core.Trace.{pending_writes}
use transit_session.Legacy.{
  AsyncSession, close, async_state, open_session, can_start_read, can_start_write, do_read,
  do_write, schedule_operations, close_socket, pop_front, run_call, write_completed, Step, calls,
  read_completes, write_completes, Reach, here, next,
}
use transit_session.Legacy.Invariant.{AsyncInv, open_session-AsyncInv}
use transit_session.Legacy.Kept.{
  run_call-AsyncInv, write_completed-AsyncInv, read_completed-AsyncInv,
}

module _ {H : Type 0} where
  Step-AsyncInv : {s t : AsyncSession H} → Step s t → AsyncInv s → AsyncInv t
  Step-AsyncInv {s} (calls c) v = run_call-AsyncInv c s v
  Step-AsyncInv {s} (read_completes a h _) v = read_completed-AsyncInv a s v h
  Step-AsyncInv {s} (write_completes ec h) v = write_completed-AsyncInv ec s v h

  Reach-AsyncInv : {s t : AsyncSession H} → AsyncInv s → Reach s t → AsyncInv t
  Reach-AsyncInv v here = v
  Reach-AsyncInv v (next r st) = Step-AsyncInv st (Reach-AsyncInv v r)

  -- After any steps of a new `AsyncSession` after `open`, whatever the socket answered, the calls,
  -- the arrivals and the results of the writes: every read and write that was started, and has not
  -- completed, is shown by its flag; no operation was started beside one of its kind or after the
  -- socket was closed, and it was closed at most once; while half-duplex was on, no write was
  -- started beside a read, and no read beside a write; the messages whose write was started are, in
  -- order, the front of those that were accepted; and while the session is open, the others are
  -- what is queued behind the write under way, a write under way has its message in the queue, and
  -- no element was taken from an empty queue.
  pub async_session-AsyncInv :
      {s : AsyncSession H} (answer : ErrorCode)
      → Reach (open_session answer (construct async_state)).1 s
      → AsyncInv s
  async_session-AsyncInv answer r = Reach-AsyncInv (open_session-AsyncInv answer) r

  -- When an open session that satisfies the invariant is closed while a write is under way, and the
  -- write then succeeds, its completion takes an element from the empty queue.
  pub close_then_pop :
      (s : AsyncSession H)
      → AsyncInv s
      → s.write_in_progress ≡ true
      → s.closed ≡ false
      → let t = run_call close s in
        (pending_writes t.trace ≡ 1)
        × (t.own.popped_empty ≡ false)
        × ((write_completed success t).own.popped_empty ≡ true)
  unfolding run_call close_socket write_completed pop_front schedule_operations can_start_read
      can_start_write do_read do_write
  close_then_pop s v w c = ground (arith, v.writing, v.defined)
