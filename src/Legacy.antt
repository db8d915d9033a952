-- ===== src/Legacy.antt =====
-- core/async_session.hpp: `AsyncSession`, the session template that the transports do not use any
-- more. Every public call is posted, so what a read handler calls runs in later steps of its own.
use transit_session.Base.{
  ℕ, ◌≤◌, ◌<◌, Bool, true, false, not, ◌&&◌, ◌||◌, Option, none, some, List, [], ◌∷◌, ◌++◌,
  if◌then◌else◌, ◌==◌, length, take, replicate,
}
use transit_session.Errors.{ErrorCode, success, failed}
use transit_session.Core.{
  accepted, read_started, read_finished, notified, write_started, write_finished, transport_closed,
  duplex_changed, Session, log, construct, has_pending_writes,
}
use transit_session.Core.Trace.{pending_reads, pending_writes}
use transit_session.Core.Arrival.{Arrival, fill}
use transit_session.Serial.{DuplexMode, is_half, full_duplex}
use transit_session.Serial.Session.{Bytes, resize}
pub mod Invariant
pub mod Kept
pub mod Safety
mod Tests

-- The members beside the flags and the queue. Ghost: `popped_empty` says that `pop_front` was called
-- on an empty queue, which is undefined behaviour.
pub record AsyncState : Type 0 where
  pub socket_open : Bool
  pub duplex_mode : DuplexMode
  pub read_buffer : Bytes
  pub popped_empty : Bool

-- As the constructor leaves it.
unfoldable pub async_state : AsyncState
async_state = record {
  socket_open = false;
  duplex_mode = full_duplex;
  read_buffer = replicate 1024 0;
  popped_empty = false;
}

abbrev pub AsyncSession : Type 0 → Type 0
AsyncSession H = Session Bytes Bytes H AsyncState

pub data AsyncCall (H : Type 0) : Type 0 where
  set_duplex_mode : DuplexMode → AsyncCall H
  set_read_handler : Option H → AsyncCall H
  set_read_buffer_size : ℕ → AsyncCall H
  start_reading stop_reading close : AsyncCall H
  send : Bytes → AsyncCall H

module _ {H : Type 0} where
  -- `open`, with the code that the socket answers.
  unfoldable pub open_session : ErrorCode → AsyncSession H → ErrorCode × AsyncSession H
  open_session answer s = (
    answer,
    if failed answer then s else record s { own = record (s.own) { socket_open = true } },
  )

  unfoldable pub can_start_read : AsyncSession H → Bool
  can_start_read s =
      if not s.read_enabled || (s.read_in_progress || s.closed)
      then false
      else (if is_half s.own.duplex_mode
          then not s.write_in_progress && not (has_pending_writes s)
          else true)

  unfoldable pub can_start_write : AsyncSession H → Bool
  can_start_write s =
      if s.write_in_progress || (not (has_pending_writes s) || s.closed)
      then false
      else (if is_half s.own.duplex_mode then not s.read_in_progress else true)

  unfoldable pub do_read : AsyncSession H → AsyncSession H
  do_read s = log read_started (record s { read_in_progress = true })

  -- `can_start_write` sees to it that the queue has a front.
  unfoldable pub do_write : AsyncSession H → AsyncSession H
  do_write s = elim s.write_queue [
    | [] ↦ s
    | w ∷ q ↦ log (write_started w) (record s { write_in_progress = true })
  ]

  abbrev try_write : AsyncSession H → AsyncSession H
  try_write s = if can_start_write s then do_write s else s

  abbrev try_read : AsyncSession H → AsyncSession H
  try_read s = if can_start_read s then do_read s else s

  unfoldable pub schedule_operations : AsyncSession H → AsyncSession H
  schedule_operations s = try_read (try_write s)

  unfoldable pub notify_read : ErrorCode → Bytes → AsyncSession H → AsyncSession H
  notify_read ec bytes s = elim s.read_handler [ none ↦ s | some h ↦ log (notified ec bytes) s ]

  unfoldable pub close_socket : AsyncSession H → AsyncSession H
  close_socket s =
      if s.closed
      then s
      else log transport_closed
          (record s { closed = true; own = record (s.own) { socket_open = false } })

  unfoldable pub pop_front : AsyncSession H → AsyncSession H
  pop_front s = elim s.write_queue [
    | [] ↦ record s { own = record (s.own) { popped_empty = true } }
    | _ ∷ q ↦ record s { write_queue = q }
  ]

  unfoldable pub run_call : AsyncCall H → AsyncSession H → AsyncSession H
  run_call (set_duplex_mode mode) s = schedule_operations (
      log (duplex_changed (is_half mode))
        (record s { own = record (s.own) { duplex_mode = mode } }))
  run_call (set_read_handler h) s = record s { read_handler = h }
  run_call (set_read_buffer_size n) s =
      if s.read_in_progress || n == 0
      then s
      else record s { own = record (s.own) { read_buffer = resize n s.own.read_buffer } }
  run_call start_reading s = schedule_operations (record s { read_enabled = true })
  run_call stop_reading s = record s { read_enabled = false }
  run_call close s = close_socket (record s { read_enabled = false; write_queue = [] })
  run_call (send w) s =
      schedule_operations (log (accepted w) (record s { write_queue = s.write_queue ++ w ∷ [] }))

  unfoldable pub write_completed : ErrorCode → AsyncSession H → AsyncSession H
  write_completed ec s =
      let ended = log (write_finished ec) (record s { write_in_progress = false }) in
      if failed ec then close_socket ended else schedule_operations (pop_front ended)

  unfoldable pub read_completed : Arrival → AsyncSession H → AsyncSession H
  read_completed a s =
      let buffer = fill a.bytes s.own.read_buffer in
      let ended =
        log (read_finished a.ec)
          (record s { read_in_progress = false; own = record (s.own) { read_buffer = buffer } }) in
      if failed a.ec
      then close_socket (notify_read a.ec [] ended)
      else schedule_operations (notify_read success (take (length a.bytes) buffer) ended)

  pub data Step (s : AsyncSession H) : AsyncSession H → Type 0 where
    calls : (c : AsyncCall H) → Step s (run_call c s)
    read_completes :
        (a : Arrival)
        → 0 < pending_reads s.trace
        → length a.bytes ≤ length s.own.read_buffer
        → Step s (read_completed a s)
    write_completes : (ec : ErrorCode) → 0 < pending_writes s.trace → Step s (write_completed ec s)

  pub data Reach (s : AsyncSession H) : AsyncSession H → Type 0 where
    here : Reach s s
    next : {t u : AsyncSession H} → Reach s t → Step t u → Reach s u
