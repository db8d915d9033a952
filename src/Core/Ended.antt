-- ===== src/Core/Ended.antt =====
-- How the invariant of a session is kept when an operation ends, and when the session closes.
use transit_session.Base.{
  ◌≡◌, refl, subst, ◌∙◌, sym, ap, Bool, true, false, Option, List, [], ◌∷◌, arith, if_cases, ◌<◌,
}
use transit_session.Errors.{ErrorCode}
use transit_session.Core.{
  notified, read_finished, write_finished, transport_closed, duplex_changed, Session, log,
  mark_write_finished, consume_write, close_session,
}
use transit_session.Core.Trace.{pending_reads, pending_writes, writes, IsAfterRead}
use transit_session.Core.Channel.{owed, run_channel-next, finish-channel_at, shut-channel_at}
use transit_session.Core.Invariant.{Inv}

module _ {R W H D : Type 0} where
  module _ (s : Session R W H D) (v : Inv s) where
    -- The front of the queue goes when its write is done.
    pub end_write-Inv :
        (ec : ErrorCode)
        → s.write_in_progress ≡ true
        → (q : List W) → q ≡ owed true s.write_queue
        → Inv (log (write_finished ec) (record s { write_in_progress = false; write_queue = q }))
    end_write-Inv ec h q e = record {
      reading = v.reading;
      writing = ground (arith, v.writing);
      closing = v.closing;
      disciplined = (ground (arith, v.writing), v.disciplined);
      emptied = λ c. e ∙ ap (owed true) (v.emptied c);
      disabled = v.disabled;
      busy = λ f. cc;
      unsent = v.unsent;
      ordered = v.ordered;
      queued = λ c. v.queued c ∙ ap (λ b. owed b s.write_queue) h ∙ sym e;
      channel =
          run_channel-next (write_finished ec) s.trace v.channel
            (finish-channel_at s.closed s.write_in_progress s.write_queue (writes s.trace) q h e);
    }

    -- Closing drops what is in the queue; what was sent is still the front of what was accepted.
    pub shut-Inv :
        (d : D)
        → s.closed ≡ false
        → Inv (
            log transport_closed
              (record s { read_enabled = false; write_queue = []; closed = true; own = d }))
    shut-Inv d c = record {
      reading = v.reading;
      writing = v.writing;
      closing = ground (arith, v.closing);
      disciplined = (ground (arith, v.closing), v.disciplined);
      emptied = λ _. refl;
      disabled = λ _. refl;
      busy = λ _ f. cc;
      unsent = v.unsent;
      ordered = v.ordered;
      queued = λ f. cc;
      channel =
          run_channel-next transport_closed s.trace v.channel
            (shut-channel_at s.closed s.write_in_progress s.write_queue (writes s.trace) c);
    }

    -- A write that is done and whose message is consumed.
    pub consume_write-Inv :
        (ec : ErrorCode)
        → 0 < pending_writes s.trace
        → Inv (consume_write (log (write_finished ec) (mark_write_finished s)))
    consume_write-Inv ec h =
        end_write-Inv ec (ground (arith, v.writing)) _ (consume-owed s.write_queue)
      where
        consume-owed : (q : List W) → elim q [ [] ↦ [] | _ ∷ r ↦ r ] ≡ owed true q
        consume-owed [] = refl
        consume-owed (_ ∷ r) = refl

    pub end_read-Inv :
        (ec : ErrorCode) (d : D)
        → 0 < pending_reads s.trace
        → Inv (log (read_finished ec) (record s { read_in_progress = false; own = d }))
    end_read-Inv ec d h = record {
      reading = ground (arith, v.reading);
      writing = v.writing;
      closing = v.closing;
      disciplined = (ground (arith, v.reading), v.disciplined);
      emptied = v.emptied;
      disabled = v.disabled;
      busy = v.busy;
      unsent = v.unsent;
      ordered = v.ordered;
      queued = v.queued;
      channel = run_channel-next (read_finished ec) s.trace v.channel refl;
    }

    pub notify-Inv :
        (ec : ErrorCode) (value : R) → IsAfterRead s.trace → Inv (log (notified ec value) s)
    notify-Inv ec value h = record {
      reading = v.reading;
      writing = v.writing;
      closing = v.closing;
      disciplined = (h, v.disciplined);
      emptied = v.emptied;
      disabled = v.disabled;
      busy = v.busy;
      unsent = v.unsent;
      ordered = v.ordered;
      queued = v.queued;
      channel = run_channel-next (notified ec value) s.trace v.channel refl;
    }

    pub duplex-Inv : (half : Bool) (d : D) → Inv (log (duplex_changed half) (record s { own = d }))
    duplex-Inv half d = record {
      reading = v.reading;
      writing = v.writing;
      closing = v.closing;
      disciplined = (tt, v.disciplined);
      emptied = v.emptied;
      disabled = v.disabled;
      busy = v.busy;
      unsent = v.unsent;
      ordered = v.ordered;
      queued = v.queued;
      channel = run_channel-next (duplex_changed half) s.trace v.channel refl;
    }

    -- The handler, the derived fields and, while the session is open, the reading switch are free.
    pub assign-Inv :
        (h : Option H) (b : Bool) (d : D)
        → (s.closed ≡ true → b ≡ false)
        → Inv (record s { read_handler = h; read_enabled = b; own = d })
    assign-Inv h b d f = record {
      reading = v.reading;
      writing = v.writing;
      closing = v.closing;
      disciplined = v.disciplined;
      emptied = v.emptied;
      disabled = f;
      busy = v.busy;
      unsent = v.unsent;
      ordered = v.ordered;
      queued = v.queued;
      channel = v.channel;
    }

  abbrev abandoned : Session R W H D → Session R W H D
  abandoned s = record s { read_enabled = false; write_queue = []; closed = true }

  -- `close_transport` of an open session closes the stream, and changes nothing else of the base
  -- class.
  module _ (close_transport : Session R W H D → Session R W H D) (close_own : Session R W H D → D)
      (s : Session R W H D)
      (closes : (t : Session R W H D)
        → t.own ≡ s.own
        → s.closed ≡ false
        → close_transport t ≡ log transport_closed (record t { own = close_own t }))
      (v : Inv s) where
    pub close_session-Inv : Inv (close_session close_transport s)
    unfolding close_session
    close_session-Inv =
        if_cases Inv s.closed (λ _. v)
          (λ c. subst Inv (sym (closes (abandoned s) refl c)) (shut-Inv s v _ c))

    -- A write that failed, after which the session closes.
    pub fail_write-Inv :
        (ec : ErrorCode)
        → 0 < pending_writes s.trace
        → Inv (close_session close_transport (log (write_finished ec) (mark_write_finished s)))
    unfolding close_session
    fail_write-Inv ec h =
        if_cases Inv s.closed
          (λ c.
            end_write-Inv s v ec writing s.write_queue
              (v.emptied c ∙ sym (ap (owed true) (v.emptied c))))
          (λ c.
            subst Inv
              (sym (closes (abandoned (log (write_finished ec) (mark_write_finished s))) refl c))
              (shut-Inv _ (end_write-Inv s v ec writing (owed true s.write_queue) refl) _ c))
      where
        writing : s.write_in_progress ≡ true
        writing = ground (arith, v.writing)
