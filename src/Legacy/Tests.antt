-- ===== src/Legacy/Tests.antt =====
-- The theorems on `AsyncSession` at a session that sends.
use transit_session.Base.{◌≡◌, refl, true, false, [], ◌∷◌, arith}
use transit_session.Errors.{success}
use transit_session.Core.{construct}
use transit_session.Core.Trace.{pending_writes, writes}
use transit_session.Legacy.{
  AsyncSession, close, send, async_state, open_session, can_start_read, can_start_write, do_read,
  do_write, schedule_operations, pop_front, run_call, write_completed, Reach, here, next, calls,
  write_completes,
}
use transit_session.Legacy.Invariant.{AsyncInv}
use transit_session.Legacy.Safety.{async_session-AsyncInv, close_then_pop}

abbrev opened : AsyncSession (Unit {0})
opened = (open_session success (construct async_state)).1

abbrev sending : AsyncSession (Unit {0})
sending = run_call (send (7 ∷ [])) opened

sending_reached : Reach opened sending
sending_reached = next here (calls (send (7 ∷ [])))

abbrev sent : AsyncSession (Unit {0})
sent = write_completed success (run_call (send (9 ∷ [])) sending)

sent_reached : Reach opened sent
unfolding open_session construct async_state run_call schedule_operations can_start_read
    can_start_write do_read do_write
sent_reached =
    next (next sending_reached (calls (send (9 ∷ [])))) (write_completes success (omega arith))

-- The second message is sent when the first is done.
sent_writes : writes sent.trace ≡ (7 ∷ []) ∷ (9 ∷ []) ∷ []
unfolding open_session construct async_state run_call schedule_operations can_start_read
    can_start_write do_read do_write write_completed pop_front
sent_writes = refl

async_session-AsyncInv_example : AsyncInv sent
async_session-AsyncInv_example = async_session-AsyncInv success sent_reached

close_then_pop_example :
    let t = run_call close sending in
    (pending_writes t.trace ≡ 1)
    × (t.own.popped_empty ≡ false)
    × ((write_completed success t).own.popped_empty ≡ true)
unfolding open_session construct async_state run_call schedule_operations can_start_read
    can_start_write do_read do_write
close_then_pop_example =
    close_then_pop sending (async_session-AsyncInv success sending_reached) refl refl
