-- ===== src/Legacy/Invariant.antt =====
-- What holds of every `AsyncSession` between two steps, and the scheduling and closing that keep it.
use transit_session.Base.{
  ◌++◌, ◌∙◌, ap, sym, snoc-append, ℕ, if◌then◌else◌, list_cases, ◌≡◌, ◌≢◌, refl, Bool, true, false,
  Option, List, [], ◌∷◌, arith, bit, if_cases,
}
use transit_session.Errors.{ErrorCode, failed}
use transit_session.Core.{Event, read_started, write_started, transport_closed, construct}
use transit_session.Core.Channel.{owed}
use transit_session.Serial.Session.{Bytes}
use transit_session.Core.Trace.{
  messages, writes, pending_reads, pending_writes, closings, half_duplex_on, IsExclusive,
}
use transit_session.Serial.{is_half}
use transit_session.Legacy.{
  AsyncSession, close, async_state, open_session, can_start_read, can_start_write, do_read,
  do_write, schedule_operations, close_socket, run_call,
}

-- No operation was started beside one of its kind or after the socket was closed.
abbrev pub IsGuarded : {R W : Type 0} → List (Event R W) → Type 0
IsGuarded [] = Unit {0}
IsGuarded (read_started ∷ t) = (pending_reads t ≡ 0) × (closings t ≡ 0) × IsGuarded t
IsGuarded (write_started _ ∷ t) = (pending_writes t ≡ 0) × (closings t ≡ 0) × IsGuarded t
IsGuarded (transport_closed ∷ t) = (closings t ≡ 0) × IsGuarded t
IsGuarded (_ ∷ t) = IsGuarded t

module _ {H : Type 0} where
  pub record AsyncInv (s : AsyncSession H) : Type 0 where
    pub reading : pending_reads s.trace ≡ bit s.read_in_progress
    pub writing : pending_writes s.trace ≡ bit s.write_in_progress
    pub closing : closings s.trace ≡ bit s.closed
    pub guarded : IsGuarded s.trace
    pub mode : half_duplex_on s.trace ≡ is_half s.own.duplex_mode
    pub exclusive : IsExclusive s.trace
    -- The message of a write under way is at the front of the queue while the session is open.
    pub busy : s.write_in_progress ≡ true → s.closed ≡ false → s.write_queue ≢ []
    pub defined : s.closed ≡ false → s.own.popped_empty ≡ false
    -- Messages are sent in the order in which they were accepted; the rest is in the queue.
    pub unsent : List Bytes
    pub ordered : messages s.trace ≡ writes s.trace ++ unsent
    pub queued : s.closed ≡ false → unsent ≡ owed s.write_in_progress s.write_queue

  construct-AsyncInv : AsyncInv (construct async_state)
  unfolding construct async_state
  construct-AsyncInv = record {
    reading = refl;
    writing = refl;
    closing = refl;
    guarded = tt;
    mode = refl;
    exclusive = tt;
    busy = λ f. cc;
    defined = λ _. refl;
    unsent = [];
    ordered = refl;
    queued = λ _. refl;
  }

  pub open_session-AsyncInv :
      (answer : ErrorCode) → AsyncInv (open_session answer (construct async_state)).1
  unfolding open_session construct async_state
  open_session-AsyncInv answer =
      if_cases AsyncInv (failed answer) (λ _. construct-AsyncInv)
        (λ _. record {
          reading = refl;
          writing = refl;
          closing = refl;
          guarded = tt;
          mode = refl;
          exclusive = tt;
          busy = λ f. cc;
          defined = λ _. refl;
          unsent = [];
          ordered = refl;
          queued = λ _. refl;
        })

  do_read-AsyncInv :
      (s : AsyncSession H) → AsyncInv s → can_start_read s ≡ true → AsyncInv (do_read s)
  unfolding do_read can_start_read
  do_read-AsyncInv s v h = record {
    reading = ground (arith, v.reading);
    writing = v.writing;
    closing = v.closing;
    guarded = (ground (arith, v.reading), ground (arith, v.closing), v.guarded);
    mode = v.mode;
    exclusive = (ground (arith, v.mode, v.writing), v.exclusive);
    busy = v.busy;
    defined = v.defined;
    unsent = v.unsent;
    ordered = v.ordered;
    queued = v.queued;
  }

  do_write-AsyncInv :
      (s : AsyncSession H) → AsyncInv s → can_start_write s ≡ true → AsyncInv (do_write s)
  unfolding do_write can_start_write
  do_write-AsyncInv s v h =
      list_cases AsyncInv s.write_queue (λ _. v)
        (λ w q e. record {
          reading = v.reading;
          writing = ground (arith, v.writing);
          closing = v.closing;
          guarded = (ground (arith, v.writing), ground (arith, v.closing), v.guarded);
          mode = v.mode;
          exclusive = (ground (arith, v.mode, v.reading), v.exclusive);
          busy = λ _ _. ground arith;
          defined = v.defined;
          unsent = q;
          ordered =
              v.ordered
              ∙ ap (◌++◌ (writes s.trace)) (v.queued (ground arith) ∙ ground arith)
              ∙ sym (snoc-append (writes s.trace) w q);
          queued = λ _. ground arith;
        })

  pub schedule-AsyncInv : (s : AsyncSession H) → AsyncInv s → AsyncInv (schedule_operations s)
  unfolding schedule_operations
  schedule-AsyncInv s v =
      if_cases AsyncInv (can_start_read tried) (do_read-AsyncInv tried tried-AsyncInv)
        (λ _. tried-AsyncInv)
    where
      tried : AsyncSession H
      tried = if can_start_write s then do_write s else s

      tried-AsyncInv : AsyncInv tried
      tried-AsyncInv = if_cases AsyncInv (can_start_write s) (do_write-AsyncInv s v) (λ _. v)

  pub close_socket-AsyncInv : (s : AsyncSession H) → AsyncInv s → AsyncInv (close_socket s)
  unfolding close_socket
  close_socket-AsyncInv s v =
      if_cases AsyncInv s.closed (λ _. v)
        (λ c. record {
          reading = v.reading;
          writing = v.writing;
          closing = ground (arith, v.closing);
          guarded = (ground (arith, v.closing), v.guarded);
          mode = v.mode;
          exclusive = v.exclusive;
          busy = λ _ f. cc;
          defined = λ f. cc;
          unsent = v.unsent;
          ordered = v.ordered;
          queued = λ f. cc;
        })

  -- Fields that the invariant does not read; the queue may grow, or the session closes.
  pub kept-AsyncInv :
      (s : AsyncSession H)
      → AsyncInv s
      → (h : Option H) (b : Bool) (buffer : List ℕ)
      → AsyncInv (record s {
        read_handler = h;
        read_enabled = b;
        own = record (s.own) { read_buffer = buffer };
      })
  kept-AsyncInv s v h b buffer = record {
    reading = v.reading;
    writing = v.writing;
    closing = v.closing;
    guarded = v.guarded;
    mode = v.mode;
    exclusive = v.exclusive;
    busy = v.busy;
    defined = v.defined;
    unsent = v.unsent;
    ordered = v.ordered;
    queued = v.queued;
  }

  -- `close` empties the queue and closes the socket at once, so that the queue of an open session is
  -- not lost.
  pub close-AsyncInv : (s : AsyncSession H) → AsyncInv s → AsyncInv (run_call close s)
  unfolding run_call close_socket
  close-AsyncInv s v = record {
    reading = ground (arith, v.reading);
    writing = ground (arith, v.writing);
    closing = ground (arith, v.closing);
    guarded = ground (arith, v.closing, v.guarded);
    mode = ground (arith, v.mode);
    exclusive = ground (arith, v.exclusive);
    busy = λ _ f. ground arith;
    defined = λ f. ground arith;
    unsent = v.unsent;
    ordered =
        if_cases (λ (t : AsyncSession H). messages t.trace ≡ writes t.trace ++ v.unsent) s.closed
          (λ _. v.ordered) (λ _. v.ordered);
    queued = λ f. ground arith;
  }
