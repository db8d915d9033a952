-- ===== src/Websocket/Client/Safety.antt =====
-- What holds of every WebSocket client session between two steps.
use transit_session.Base.{
  ◌<◌, ◌≡◌, refl, ◌⊎◌, inl, Bool, true, false, not, List, [], arith, if_cases,
}
use transit_session.Errors.{ErrorCode, success, failed}
use transit_session.Core.{
  read_finished, transport_closed, Call, log, close_session, schedule_operations, notify_read,
}
use transit_session.Core.Trace.{IsAfterRead, pending_reads, pending_writes}
use transit_session.Core.Preserve.{Preserves, schedule_operations-Preserves, notify_read-Preserves}
use transit_session.Core.Machine.{Keeps, Reach, Reach-Keeps}
use transit_session.Core.Arrival.{Arrival}
use transit_session.Core.Invariant.{Inv, begin_read-Inv, begin_write-Inv, current_cases, accept-Inv}
use transit_session.Core.Ended.{
  close_session-Inv, fail_write-Inv, consume_write-Inv, end_read-Inv, notify-Inv, assign-Inv,
}
use transit_session.Websocket.{Bytes}
use transit_session.Websocket.Client.{
  ClientState, WebSocketSession, can_start_read, can_start_write, do_read, do_write,
  close_transport, client_derived, no_own, write_completed, read_completed, client_machine,
}

module _ {H : Type 0} where
  pub record ClientInv (s : WebSocketSession H) : Type 0 where
    pub base : Inv s
    -- A read begins with an empty buffer, which holds until it completes.
    pub waiting : s.read_in_progress ≡ true → s.own.read_buffer ≡ []
    -- The stream of an open session is open, as it is configured.
    pub mode : s.closed ≡ false → s.own.stream.binary ≡ s.own.config.binary_mode
    pub limit : s.closed ≡ false → s.own.stream.read_message_max ≡ s.own.config.max_message_size
    pub opened : s.closed ≡ false → s.own.stream.is_open ≡ true

  abbrev closed_own : WebSocketSession H → ClientState
  closed_own s = record (s.own) { stream = record (s.own.stream) { is_open = false } }

  close_transport_lem :
      (s : WebSocketSession H)
      → close_transport s ≡ log transport_closed (record s { own = closed_own s })
  unfolding close_transport
  close_transport_lem s = refl

  close-ClientInv :
      (s : WebSocketSession H) → ClientInv s → ClientInv (close_session close_transport s)
  close-ClientInv s v = record {
    base = close_session-Inv close_transport closed_own s (λ t _ _. close_transport_lem t) v.base;
    waiting = unfold close_session close_transport in ground (arith, v.waiting);
    mode = unfold close_session close_transport in ground (arith, v.mode);
    limit = unfold close_session close_transport in ground (arith, v.limit);
    opened = unfold close_session close_transport in ground (arith, v.opened);
  }

  do_read-ClientInv :
      (s : WebSocketSession H) → ClientInv s → can_start_read s ≡ true → ClientInv (do_read s)
  unfolding do_read can_start_read
  do_read-ClientInv s v h = record {
    base = begin_read-Inv s v.base _ (ground arith) (ground arith);
    waiting = λ _. refl;
    mode = v.mode;
    limit = v.limit;
    opened = v.opened;
  }

  do_write-ClientInv :
      (s : WebSocketSession H) → ClientInv s → can_start_write s ≡ true → ClientInv (do_write s)
  unfolding do_write can_start_write
  do_write-ClientInv s v h =
      current_cases ClientInv s.write_queue (λ _. v)
        (λ w q e. record {
          base = begin_write-Inv s v.base w q _ e (ground arith) (ground arith);
          waiting = v.waiting;
          mode = λ _. refl;
          limit = v.limit;
          opened = v.opened;
        })

  -- An assignment that leaves the stream, the buffer and `closed` alone.
  kept :
      (s t : WebSocketSession H)
      → ClientInv s
      → t.read_in_progress ≡ s.read_in_progress
      → t.own ≡ s.own
      → t.closed ≡ s.closed
      → Inv t
      → ClientInv t
  kept s t v r o c i = record {
    base = i;
    waiting = ground (arith, v.waiting);
    mode = ground (arith, v.mode);
    limit = ground (arith, v.limit);
    opened = ground (arith, v.opened);
  }

  client_derived-Preserves : Preserves (client_derived {H = H}) ClientInv
  client_derived-Preserves = record {
    do_read = do_read-ClientInv;
    do_write = do_write-ClientInv;
    close = close-ClientInv;
    accept = λ s w v c. kept s _ v refl refl refl (accept-Inv s v.base w c);
    enable = λ s v c.
        kept s _ v refl refl refl (assign-Inv s v.base s.read_handler true s.own (λ e. cc));
    disable = λ s v.
        kept s _ v refl refl refl (assign-Inv s v.base s.read_handler false s.own (λ _. refl));
    handle = λ s h v.
        kept s _ v refl refl refl (assign-Inv s v.base h s.read_enabled s.own v.base.disabled);
  }

  schedule-ClientInv :
      (s : WebSocketSession H) → ClientInv s → ClientInv (schedule_operations client_derived s)
  schedule-ClientInv s v = schedule_operations-Preserves client_derived-Preserves s v

  write_completed-ClientInv :
      (ec : ErrorCode) (s : WebSocketSession H)
      → ClientInv s
      → 0 < pending_writes s.trace
      → ClientInv (write_completed ec s)
  unfolding write_completed
  write_completed-ClientInv ec s v h =
      if_cases ClientInv (failed ec)
        (λ _. record {
          base =
              fail_write-Inv close_transport closed_own s (λ t _ _. close_transport_lem t) v.base ec
                h;
          waiting = unfold close_session close_transport in ground (arith, v.waiting);
          mode = unfold close_session close_transport in ground (arith, v.mode);
          limit = unfold close_session close_transport in ground (arith, v.limit);
          opened = unfold close_session close_transport in ground (arith, v.opened);
        })
        (λ _. schedule-ClientInv _ (kept s _ v refl refl refl (consume_write-Inv s v.base ec h)))

  module _ (react : H → ErrorCode → Bytes → List (Call Bytes H ⊥)) where
    notify_read-ClientInv :
        (ec : ErrorCode) (value : Bytes) (s : WebSocketSession H)
        → ClientInv s
        → IsAfterRead s.trace
        → ClientInv (notify_read client_derived no_own react ec value s)
    notify_read-ClientInv ec value s v h =
        notify_read-Preserves client_derived-Preserves (λ x t w. w) react ec value s v
          (kept s _ v refl refl refl (notify-Inv s v.base ec value h))

    -- A read has completed and the buffer may hold anything.
    end_read-ClientInv :
        (ec : ErrorCode) (b : Bytes) (s : WebSocketSession H)
        → ClientInv s
        → 0 < pending_reads s.trace
        → ClientInv (
            log
              (read_finished ec)
              (record s { read_in_progress = false; own = record (s.own) { read_buffer = b } }))
    end_read-ClientInv ec b s v h = record {
      base = end_read-Inv s v.base ec _ h;
      waiting = λ e. cc;
      mode = v.mode;
      limit = v.limit;
      opened = v.opened;
    }

    read_completed-ClientInv :
        (a : Arrival) (s : WebSocketSession H)
        → ClientInv s
        → 0 < pending_reads s.trace
        → ClientInv (read_completed react a s)
    unfolding read_completed
    read_completed-ClientInv a s v h =
        if_cases ClientInv (failed a.ec)
          (λ _.
            close-ClientInv _
              (notify_read-ClientInv a.ec [] _ (end_read-ClientInv a.ec _ s v h) tt))
          (λ _.
            schedule-ClientInv _
              (notify_read-ClientInv success _ _ (end_read-ClientInv a.ec _ s v h) tt))

    pub client_machine-Keeps : Keeps (client_machine react) ClientInv
    client_machine-Keeps = record {
      base = client_derived-Preserves;
      own = λ x s v. v;
      read = λ a s v h _. read_completed-ClientInv a s v h;
      write = λ ec s v h. write_completed-ClientInv ec s v h;
    }

    pub client_session-ClientInv :
        {s t : WebSocketSession H} → ClientInv s → Reach (client_machine react) s t → ClientInv t
    client_session-ClientInv v r = Reach-Keeps client_machine-Keeps v r

  -- The stream of a session is open exactly while the session is, unless `open` was called on the
  -- closed session.
  abbrev pub Wired : Bool → WebSocketSession H → Type 0
  Wired tried s = (s.own.stream.is_open ≡ not s.closed) ⊎ ((tried ≡ true) × (s.closed ≡ true))

  close-Wired :
      (tried : Bool) (s : WebSocketSession H)
      → Wired tried s
      → Wired tried (close_session close_transport s)
  unfolding close_session close_transport
  close-Wired tried s p = if_cases (Wired tried) s.closed (λ _. p) (λ _. inl refl)

  client_derived-Wired : (tried : Bool) → Preserves (client_derived {H = H}) (Wired tried)
  unfolding do_read do_write
  client_derived-Wired tried = record {
    do_read = λ s p _. p;
    do_write = λ s p _. current_cases (Wired tried) s.write_queue (λ _. p) (λ w q e. p);
    close = close-Wired tried;
    accept = λ s w p _. p;
    enable = λ s p _. p;
    disable = λ s p. p;
    handle = λ s h p. p;
  }

  pub client_machine-Wired :
      (tried : Bool) (react : H → ErrorCode → Bytes → List (Call Bytes H ⊥))
      → Keeps (client_machine react) (Wired tried)
  unfolding read_completed write_completed
  client_machine-Wired tried react =
      let keeps = client_derived-Wired tried in
      let notified =
        λ (ec : ErrorCode) (value : Bytes) (s : WebSocketSession H) (p : Wired tried s).
          notify_read-Preserves keeps {run_own = no_own} (λ x t w. w) react ec value s p p in
      record {
        base = keeps;
        own = λ x s p. p;
        read = λ a s p _ _.
            if_cases (Wired tried) (failed a.ec) (λ _. close-Wired tried _ (notified a.ec [] _ p))
              (λ _. schedule_operations-Preserves keeps _ (notified success _ _ p));
        write = λ ec s p _.
            if_cases (Wired tried) (failed ec) (λ _. close-Wired tried _ p)
              (λ _. schedule_operations-Preserves keeps _ p);
      }
