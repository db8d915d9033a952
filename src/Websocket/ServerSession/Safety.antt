-- ===== src/Websocket/ServerSession/Safety.antt =====
-- What holds of every WebSocket server session between two steps.
use transit_session.Base.{bit, ◌≤◌, ◌<◌, ◌≡◌, refl, true, false, List, [], arith, if_cases}
use transit_session.Errors.{ErrorCode, success, failed}
use transit_session.Core.{
  read_finished, transport_closed, Call, log, close_session, schedule_operations, notify_read,
}
use transit_session.Core.Trace.{IsAfterRead, pending_reads, pending_writes}
use transit_session.Core.Preserve.{Preserves, schedule_operations-Preserves, notify_read-Preserves}
use transit_session.Core.Machine.{Keeps, Reach, Reach-Keeps}
use transit_session.Core.Arrival.{Arrival}
use transit_session.Core.Invariant.{Inv, begin_read-Inv, begin_write-Inv, current_cases, accept-Inv}
use transit_session.Core.Ended.{
  close_session-Inv, fail_write-Inv, consume_write-Inv, end_read-Inv, notify-Inv, assign-Inv,
}
use transit_session.Websocket.{Bytes}
use transit_session.Websocket.ServerSession.{
  ServerCall, set_close_handler, notified_own, ServerState, WebSocketServerSession, can_start_read,
  can_start_write, do_read, do_write, close_transport, server_derived, run_server_call,
  write_completed, read_completed, server_machine,
}

module _ {H : Type 0} where
  pub record ServerInv (s : WebSocketServerSession H) : Type 0 where
    pub base : Inv s
    -- A read begins with an empty buffer, which holds until it completes.
    pub waiting : s.read_in_progress ≡ true → s.own.read_buffer ≡ []
    pub mode : s.own.stream.binary ≡ s.own.config.binary_mode
    pub limit : s.own.stream.read_message_max ≡ s.own.config.max_message_size
    -- The stream is closed exactly when the session is.
    pub opened : s.closed ≡ false → s.own.stream.is_open ≡ true
    pub shut : s.closed ≡ true → s.own.stream.is_open ≡ false
    pub notified : s.own.close_notified ≡ s.closed
    -- The close handler is called at most once, and only when the session closes.
    pub once : s.own.close_calls ≤ bit s.closed

  abbrev closed_own : WebSocketServerSession H → ServerState
  closed_own s = notified_own s.own

  close_transport_lem :
      (s : WebSocketServerSession H)
      → ServerInv s
      → (t : WebSocketServerSession H) → t.own ≡ s.own
      → s.closed ≡ false
      → close_transport t ≡ log transport_closed (record t { own = closed_own t })
  unfolding close_transport
  close_transport_lem s v t o c = ground (arith, v.notified)

  close-ServerInv :
      (s : WebSocketServerSession H) → ServerInv s → ServerInv (close_session close_transport s)
  close-ServerInv s v = record {
    base = close_session-Inv close_transport closed_own s (close_transport_lem s v) v.base;
    waiting = unfold close_session close_transport in ground (arith, v.waiting);
    mode = unfold close_session close_transport in ground (arith, v.mode);
    limit = unfold close_session close_transport in ground (arith, v.limit);
    opened = unfold close_session close_transport in ground (arith, v.opened);
    shut = unfold close_session close_transport in ground (arith, v.shut, v.notified);
    notified = unfold close_session close_transport in ground (arith, v.notified);
    once = unfold close_session close_transport in ground (arith, v.once, v.notified);
  }

  do_read-ServerInv :
      (s : WebSocketServerSession H) → ServerInv s → can_start_read s ≡ true → ServerInv (do_read s)
  unfolding do_read can_start_read
  do_read-ServerInv s v h = record {
    base = begin_read-Inv s v.base _ (ground arith) (ground arith);
    waiting = λ _. refl;
    mode = v.mode;
    limit = v.limit;
    opened = v.opened;
    shut = v.shut;
    notified = v.notified;
    once = v.once;
  }

  do_write-ServerInv :
      (s : WebSocketServerSession H)
      → ServerInv s
      → can_start_write s ≡ true
      → ServerInv (do_write s)
  unfolding do_write can_start_write
  do_write-ServerInv s v h =
      current_cases ServerInv s.write_queue (λ _. v)
        (λ w q e. record {
          base = begin_write-Inv s v.base w q _ e (ground arith) (ground arith);
          waiting = v.waiting;
          mode = refl;
          limit = v.limit;
          opened = v.opened;
          shut = v.shut;
          notified = v.notified;
          once = v.once;
        })

  -- An assignment that leaves the stream, the buffer and `closed` alone.
  kept :
      (s t : WebSocketServerSession H)
      → ServerInv s
      → t.read_in_progress ≡ s.read_in_progress
      → t.own ≡ s.own
      → t.closed ≡ s.closed
      → Inv t
      → ServerInv t
  kept s t v r o c i = record {
    base = i;
    waiting = ground (arith, v.waiting);
    mode = ground (arith, v.mode);
    limit = ground (arith, v.limit);
    opened = ground (arith, v.opened);
    shut = ground (arith, v.shut);
    notified = ground (arith, v.notified);
    once = ground (arith, v.once);
  }

  pub server_derived-Preserves : Preserves (server_derived {H = H}) ServerInv
  server_derived-Preserves = record {
    do_read = do_read-ServerInv;
    do_write = do_write-ServerInv;
    close = close-ServerInv;
    accept = λ s w v c. kept s _ v refl refl refl (accept-Inv s v.base w c);
    enable = λ s v c.
        kept s _ v refl refl refl (assign-Inv s v.base s.read_handler true s.own (λ e. cc));
    disable = λ s v.
        kept s _ v refl refl refl (assign-Inv s v.base s.read_handler false s.own (λ _. refl));
    handle = λ s h v.
        kept s _ v refl refl refl (assign-Inv s v.base h s.read_enabled s.own v.base.disabled);
  }

  run_server_call-ServerInv :
      (x : ServerCall) (s : WebSocketServerSession H)
      → ServerInv s
      → ServerInv (run_server_call x s)
  unfolding run_server_call
  run_server_call-ServerInv (set_close_handler b) s v = record {
    base = assign-Inv s v.base s.read_handler s.read_enabled _ v.base.disabled;
    waiting = v.waiting;
    mode = v.mode;
    limit = v.limit;
    opened = v.opened;
    shut = v.shut;
    notified = v.notified;
    once = v.once;
  }

  schedule-ServerInv :
      (s : WebSocketServerSession H)
      → ServerInv s
      → ServerInv (schedule_operations server_derived s)
  schedule-ServerInv s v = schedule_operations-Preserves server_derived-Preserves s v

  pub write_completed-ServerInv :
      (ec : ErrorCode) (s : WebSocketServerSession H)
      → ServerInv s
      → 0 < pending_writes s.trace
      → ServerInv (write_completed ec s)
  unfolding write_completed
  write_completed-ServerInv ec s v h =
      if_cases ServerInv (failed ec)
        (λ _. record {
          base = fail_write-Inv close_transport closed_own s (close_transport_lem s v) v.base ec h;
          waiting = unfold close_session close_transport in ground (arith, v.waiting);
          mode = unfold close_session close_transport in ground (arith, v.mode);
          limit = unfold close_session close_transport in ground (arith, v.limit);
          opened = unfold close_session close_transport in ground (arith, v.opened);
          shut = unfold close_session close_transport in ground (arith, v.shut, v.notified);
          notified = unfold close_session close_transport in ground (arith, v.notified);
          once = unfold close_session close_transport in ground (arith, v.once, v.notified);
        })
        (λ _. schedule-ServerInv _ (kept s _ v refl refl refl (consume_write-Inv s v.base ec h)))

  module _ (react : H → ErrorCode → Bytes → List (Call Bytes H ServerCall)) where
    notify_read-ServerInv :
        (ec : ErrorCode) (value : Bytes) (s : WebSocketServerSession H)
        → ServerInv s
        → IsAfterRead s.trace
        → ServerInv (notify_read server_derived run_server_call react ec value s)
    notify_read-ServerInv ec value s v h =
        notify_read-Preserves server_derived-Preserves run_server_call-ServerInv react ec value s v
          (kept s _ v refl refl refl (notify-Inv s v.base ec value h))

    -- A read has completed and the buffer may hold anything.
    end_read-ServerInv :
        (ec : ErrorCode) (b : Bytes) (s : WebSocketServerSession H)
        → ServerInv s
        → 0 < pending_reads s.trace
        → ServerInv (
            log
              (read_finished ec)
              (record s { read_in_progress = false; own = record (s.own) { read_buffer = b } }))
    end_read-ServerInv ec b s v h = record {
      base = end_read-Inv s v.base ec _ h;
      waiting = λ e. cc;
      mode = v.mode;
      limit = v.limit;
      opened = v.opened;
      shut = v.shut;
      notified = v.notified;
      once = v.once;
    }

    pub read_completed-ServerInv :
        (a : Arrival) (s : WebSocketServerSession H)
        → ServerInv s
        → 0 < pending_reads s.trace
        → ServerInv (read_completed react a s)
    unfolding read_completed
    read_completed-ServerInv a s v h =
        if_cases ServerInv (failed a.ec)
          (λ _.
            close-ServerInv _
              (notify_read-ServerInv a.ec [] _ (end_read-ServerInv a.ec _ s v h) tt))
          (λ _.
            schedule-ServerInv _
              (notify_read-ServerInv success _ _ (end_read-ServerInv a.ec _ s v h) tt))

    server_machine-Keeps : Keeps (server_machine react) ServerInv
    server_machine-Keeps = record {
      base = server_derived-Preserves;
      own = run_server_call-ServerInv;
      read = λ a s v h _. read_completed-ServerInv a s v h;
      write = λ ec s v h. write_completed-ServerInv ec s v h;
    }

    pub server_session-ServerInv :
        {s t : WebSocketServerSession H}
        → ServerInv s
        → Reach (server_machine react) s t
        → ServerInv t
    server_session-ServerInv v r = Reach-Keeps server_machine-Keeps v r
