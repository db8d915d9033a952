-- ===== src/Serial/Invariant.antt =====
-- What holds of every serial session between two steps, and the hooks that keep it.
use transit_session.Base.{◌<◌, ◌≡◌, refl, Bool, true, false, ◌&&◌, Option, arith, if_cases, length}
use transit_session.Core.{transport_closed, log, close_session, schedule_operations}
use transit_session.Core.Trace.{IsExclusive, half_duplex_on}
use transit_session.Core.Preserve.{Preserves, schedule_operations-Preserves}
use transit_session.Core.Invariant.{Inv, begin_read-Inv, begin_write-Inv, current_cases, accept-Inv}
use transit_session.Core.Ended.{close_session-Inv, assign-Inv}
use transit_session.Serial.{SerialState, is_half}
use transit_session.Serial.Session.{
  SerialSession, can_start_read, can_start_write, do_read, do_write, close_transport,
  serial_derived,
}

module _ {H : Type 0} where
  pub record SerialInv (s : SerialSession H) : Type 0 where
    pub base : Inv s
    pub mode : half_duplex_on s.trace ≡ is_half s.own.duplex_mode
    pub exclusive : IsExclusive s.trace
    -- The pause that `do_write` asks for in half-duplex never comes about.
    pub unpaused : s.own.read_pause_for_write ≡ false
    -- A read is never given an empty buffer.
    pub room : 0 < length s.own.read_buffer

  abbrev pub closed_own : SerialSession H → SerialState
  closed_own s = record (s.own) { port_open = false }

  pub close_transport_lem :
      (s : SerialSession H)
      → close_transport s ≡ log transport_closed (record s { own = closed_own s })
  unfolding close_transport
  close_transport_lem s = refl

  pub close-SerialInv :
      (s : SerialSession H) → SerialInv s → SerialInv (close_session close_transport s)
  close-SerialInv s v = record {
    base = close_session-Inv close_transport closed_own s (λ t _ _. close_transport_lem t) v.base;
    mode = unfold close_session close_transport in ground (arith, v.mode);
    exclusive = unfold close_session close_transport in ground (arith, v.exclusive);
    unpaused = unfold close_session close_transport in ground (arith, v.unpaused);
    room = unfold close_session close_transport in ground (arith, v.room);
  }

  do_read-SerialInv :
      (s : SerialSession H) → SerialInv s → can_start_read s ≡ true → SerialInv (do_read s)
  unfolding do_read can_start_read
  do_read-SerialInv s v h = record {
    base = begin_read-Inv s v.base _ (ground arith) (ground arith);
    mode = v.mode;
    exclusive = (ground (arith, v.mode, v.base.writing), v.exclusive);
    unpaused = refl;
    room = v.room;
  }

  do_write-SerialInv :
      (s : SerialSession H) → SerialInv s → can_start_write s ≡ true → SerialInv (do_write s)
  unfolding do_write can_start_write
  do_write-SerialInv s v h =
      current_cases SerialInv s.write_queue (λ _. v)
        (λ w q e.
          if_cases SerialInv (is_half s.own.duplex_mode && s.read_in_progress)
            (λ both. absurd (ground arith))
            (λ _. record {
              base = begin_write-Inv s v.base w q s.own e (ground arith) (ground arith);
              mode = v.mode;
              exclusive = (ground (arith, v.mode, v.base.reading), v.exclusive);
              unpaused = v.unpaused;
              room = v.room;
            }))

  pub serial_derived-Preserves : Preserves (serial_derived {H = H}) SerialInv
  serial_derived-Preserves = record {
    do_read = do_read-SerialInv;
    do_write = do_write-SerialInv;
    close = close-SerialInv;
    accept = λ s w v c. record {
      base = accept-Inv s v.base w c;
      mode = v.mode;
      exclusive = v.exclusive;
      unpaused = v.unpaused;
      room = v.room;
    };
    enable = λ s v c. assigned s v s.read_handler true (λ e. cc);
    disable = λ s v. assigned s v s.read_handler false (λ _. refl);
    handle = λ s h v. assigned s v h s.read_enabled v.base.disabled;
  }
    where
      assigned :
          (s : SerialSession H)
          → SerialInv s
          → (h : Option H) (b : Bool) → (s.closed ≡ true → b ≡ false)
          → SerialInv (record s { read_handler = h; read_enabled = b })
      assigned s v h b f = record {
        base = assign-Inv s v.base h b s.own f;
        mode = v.mode;
        exclusive = v.exclusive;
        unpaused = v.unpaused;
        room = v.room;
      }

  pub schedule-SerialInv :
      (s : SerialSession H) → SerialInv s → SerialInv (schedule_operations serial_derived s)
  schedule-SerialInv s v = schedule_operations-Preserves serial_derived-Preserves s v
