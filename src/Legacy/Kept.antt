-- ===== src/Legacy/Kept.antt =====
-- The calls and the completions of an `AsyncSession` keep its invariant.
use transit_session.Base.{
  ◌++◌, ◌∷◌, ◌∙◌, ap, sym, append_assoc, ◌||◌, ◌==◌, list_cases, ◌<◌, ◌≡◌, refl, true, false, List,
  [], arith, if_cases, snoc-ne-nil, option_cases,
}
use transit_session.Errors.{ErrorCode, success, failed}
use transit_session.Core.{read_finished, write_finished, transport_closed, log}
use transit_session.Core.Channel.{owed, owed-snoc}
use transit_session.Core.Trace.{pending_reads, pending_writes, writes}
use transit_session.Core.Arrival.{Arrival, fill}
use transit_session.Serial.Session.{Bytes}
use transit_session.Legacy.{
  AsyncSession, AsyncCall, set_duplex_mode, set_read_handler, set_read_buffer_size, start_reading,
  stop_reading, close, send, notify_read, close_socket, pop_front, run_call, write_completed,
  read_completed,
}
use transit_session.Legacy.Invariant.{
  AsyncInv, schedule-AsyncInv, close_socket-AsyncInv, kept-AsyncInv, close-AsyncInv,
}

module _ {H : Type 0} where
  pub run_call-AsyncInv :
      (c : AsyncCall H) (s : AsyncSession H) → AsyncInv s → AsyncInv (run_call c s)
  unfolding run_call
  run_call-AsyncInv (set_duplex_mode mode) s v = schedule-AsyncInv _ (record {
    reading = v.reading;
    writing = v.writing;
    closing = v.closing;
    guarded = v.guarded;
    mode = refl;
    exclusive = v.exclusive;
    busy = v.busy;
    defined = v.defined;
    unsent = v.unsent;
    ordered = v.ordered;
    queued = v.queued;
  })
  run_call-AsyncInv (set_read_handler h) s v = kept-AsyncInv s v h s.read_enabled s.own.read_buffer
  run_call-AsyncInv (set_read_buffer_size n) s v =
      if_cases AsyncInv (s.read_in_progress || n == 0) (λ _. v)
        (λ _. kept-AsyncInv s v s.read_handler s.read_enabled _)
  run_call-AsyncInv start_reading s v =
      schedule-AsyncInv _ (kept-AsyncInv s v s.read_handler true s.own.read_buffer)
  run_call-AsyncInv stop_reading s v = kept-AsyncInv s v s.read_handler false s.own.read_buffer
  run_call-AsyncInv close s v = close-AsyncInv s v
  run_call-AsyncInv (send w) s v = schedule-AsyncInv _ (record {
    reading = v.reading;
    writing = v.writing;
    closing = v.closing;
    guarded = v.guarded;
    mode = v.mode;
    exclusive = v.exclusive;
    busy = λ _ _. snoc-ne-nil s.write_queue w;
    defined = v.defined;
    unsent = v.unsent ++ w ∷ [];
    ordered =
        ap (λ (l : List Bytes). l ++ w ∷ []) v.ordered
        ∙ append_assoc (writes s.trace) v.unsent (w ∷ []);
    queued = λ c.
        ap (λ (l : List Bytes). l ++ w ∷ []) (v.queued c)
        ∙ sym (owed-snoc w s.write_in_progress s.write_queue (λ h. v.busy h c));
  })

  pub write_completed-AsyncInv :
      (ec : ErrorCode) (s : AsyncSession H)
      → AsyncInv s
      → 0 < pending_writes s.trace
      → AsyncInv (write_completed ec s)
  unfolding write_completed pop_front close_socket
  write_completed-AsyncInv ec s v h =
      if_cases AsyncInv (failed ec)
        (λ _.
          if_cases AsyncInv s.closed (λ c. popped s.write_queue (λ f. absurd (cc))) failed_write)
        (λ _. schedule-AsyncInv _ (
          list_cases AsyncInv s.write_queue (λ e. popped_nothing e)
            (λ w q e.
              popped q
                (λ c. v.queued c ∙ ap (λ b. owed b s.write_queue) under_way ∙ ap (owed true) e))))
    where
      under_way : s.write_in_progress ≡ true
      under_way = ground (arith, v.writing)

      over : AsyncSession H
      over = log (write_finished ec) (record s { write_in_progress = false })

      popped :
          (q : List Bytes)
          → (s.closed ≡ false → v.unsent ≡ q)
          → AsyncInv (record over { write_queue = q })
      popped q left = record {
        reading = v.reading;
        writing = ground (arith, v.writing);
        closing = v.closing;
        guarded = v.guarded;
        mode = v.mode;
        exclusive = v.exclusive;
        busy = λ f. cc;
        defined = v.defined;
        unsent = v.unsent;
        ordered = v.ordered;
        queued = left;
      }

      -- A write that failed: the message stays in the queue of the session, which closes.
      failed_write :
          s.closed ≡ false
          → AsyncInv (
              log transport_closed
                (record over { closed = true; own = record (s.own) { socket_open = false } }))
      failed_write c = record {
        reading = v.reading;
        writing = ground (arith, v.writing);
        closing = ground (arith, v.closing);
        guarded = (ground (arith, v.closing), v.guarded);
        mode = v.mode;
        exclusive = v.exclusive;
        busy = λ f. cc;
        defined = λ f. cc;
        unsent = v.unsent;
        ordered = v.ordered;
        queued = λ f. cc;
      }

      popped_nothing :
          s.write_queue ≡ []
          → AsyncInv (record over { own = record (s.own) { popped_empty = true } })
      popped_nothing e = record {
        reading = v.reading;
        writing = ground (arith, v.writing);
        closing = v.closing;
        guarded = v.guarded;
        mode = v.mode;
        exclusive = v.exclusive;
        busy = λ f. cc;
        defined = λ c. absurd (v.busy under_way c e);
        unsent = v.unsent;
        ordered = v.ordered;
        queued = λ c. absurd (v.busy under_way c e);
      }

  notify_read-AsyncInv :
      (ec : ErrorCode) (bytes : Bytes) (s : AsyncSession H)
      → AsyncInv s
      → AsyncInv (notify_read ec bytes s)
  unfolding notify_read
  notify_read-AsyncInv ec bytes s v =
      option_cases AsyncInv s.read_handler (λ _. v)
        (λ h _. record {
          reading = v.reading;
          writing = v.writing;
          closing = v.closing;
          guarded = v.guarded;
          mode = v.mode;
          exclusive = v.exclusive;
          busy = v.busy;
          defined = v.defined;
          unsent = v.unsent;
          ordered = v.ordered;
          queued = v.queued;
        })

  pub read_completed-AsyncInv :
      (a : Arrival) (s : AsyncSession H)
      → AsyncInv s
      → 0 < pending_reads s.trace
      → AsyncInv (read_completed a s)
  unfolding read_completed
  read_completed-AsyncInv a s v h =
      if_cases AsyncInv (failed a.ec)
        (λ _. close_socket-AsyncInv _ (notify_read-AsyncInv a.ec [] _ ended))
        (λ _. schedule-AsyncInv _ (notify_read-AsyncInv success _ _ ended))
    where
      ended : AsyncInv (
          log (read_finished a.ec) (record s {
            read_in_progress = false;
            own = record (s.own) { read_buffer = fill a.bytes s.own.read_buffer };
          }))
      ended = record {
        reading = ground (arith, v.reading);
        writing = v.writing;
        closing = v.closing;
        guarded = v.guarded;
        mode = v.mode;
        exclusive = v.exclusive;
        busy = v.busy;
        defined = v.defined;
        unsent = v.unsent;
        ordered = v.ordered;
        queued = v.queued;
      }
