-- ===== src/Serial/Safety.antt =====
-- Every call and completion of a serial session keeps its invariant.
use transit_session.Base.{
  ℕ, ◌-◌, ◌<◌, ◌≡◌, refl, false, ◌&&◌, ◌||◌, List, [], ◌==◌, arith, if_cases, length, take,
  replicate, length-append, length-take, length-replicate,
}
use transit_session.Errors.{ErrorCode, success, failed, is_aborted}
use transit_session.Core.{read_finished, Call, log, close_session, notify_read}
use transit_session.Core.Trace.{IsAfterRead, pending_reads, pending_writes}
use transit_session.Core.Preserve.{notify_read-Preserves}
use transit_session.Core.Machine.{Keeps, Reach, Reach-Keeps}
use transit_session.Core.Arrival.{Arrival, fill, length-fill}
use transit_session.Core.Ended.{
  fail_write-Inv, consume_write-Inv, end_read-Inv, notify-Inv, duplex-Inv, assign-Inv,
}
use transit_session.Serial.{is_half}
use transit_session.Serial.Session.{
  Bytes, SerialSession, SerialCall, set_duplex_mode, set_read_buffer_size, resize, close_transport,
  serial_derived, run_serial_call, write_completed, read_completed, serial_machine,
}
use transit_session.Serial.Invariant.{
  SerialInv, closed_own, close_transport_lem, close-SerialInv, serial_derived-Preserves,
  schedule-SerialInv,
}

-- `resize` gives the length that it is asked for.
pub length-resize : (n : ℕ) (b : Bytes) → length (resize n b) ≡ n
length-resize n b = omega (
  arith,
  length-append (take n b) (replicate (n - length b) 0),
  length-take n b,
  length-replicate {0} {A = ℕ} (n - length b) 0,
)

module _ {H : Type 0} where
  run_serial_call-SerialInv :
      (x : SerialCall) (s : SerialSession H) → SerialInv s → SerialInv (run_serial_call x s)
  unfolding run_serial_call
  run_serial_call-SerialInv (set_duplex_mode mode) s v = schedule-SerialInv _ (record {
    base = duplex-Inv s v.base (is_half mode) (record (s.own) { duplex_mode = mode });
    mode = refl;
    exclusive = v.exclusive;
    unpaused = v.unpaused;
    room = v.room;
  })
  run_serial_call-SerialInv (set_read_buffer_size n) s v =
      if_cases SerialInv (s.read_in_progress || n == 0) (λ _. v)
        (λ e. record {
          base = assign-Inv s v.base s.read_handler s.read_enabled _ v.base.disabled;
          mode = v.mode;
          exclusive = v.exclusive;
          unpaused = v.unpaused;
          room = ground (arith, length-resize n s.own.read_buffer);
        })

  write_completed-SerialInv :
      (ec : ErrorCode) (s : SerialSession H)
      → SerialInv s
      → 0 < pending_writes s.trace
      → SerialInv (write_completed ec s)
  unfolding write_completed
  write_completed-SerialInv ec s v h =
      if_cases SerialInv (failed ec)
        (λ _. record {
          base =
              fail_write-Inv close_transport closed_own s (λ t _ _. close_transport_lem t) v.base ec
                h;
          mode = unfold close_session close_transport in ground (arith, v.mode);
          exclusive = unfold close_session close_transport in ground (arith, v.exclusive);
          unpaused = unfold close_session close_transport in ground (arith, v.unpaused);
          room = unfold close_session close_transport in ground (arith, v.room);
        })
        (λ _. schedule-SerialInv _ (record {
          base = consume_write-Inv s v.base ec h;
          mode = v.mode;
          exclusive = v.exclusive;
          unpaused = v.unpaused;
          room = v.room;
        }))

  -- The state after a read has completed, before the handler runs.
  abbrev pub read_ended : Arrival → SerialSession H → SerialSession H
  read_ended a s = log (read_finished a.ec) (record s {
    read_in_progress = false;
    own = record (s.own) { read_buffer = fill a.bytes s.own.read_buffer };
  })

  pub end_read-SerialInv :
      (a : Arrival) (s : SerialSession H)
      → SerialInv s
      → 0 < pending_reads s.trace
      → SerialInv (read_ended a s)
  end_read-SerialInv a s v h = record {
    base = end_read-Inv s v.base a.ec _ h;
    mode = v.mode;
    exclusive = v.exclusive;
    unpaused = v.unpaused;
    room = omega (arith, v.room, length-fill a.bytes s.own.read_buffer);
  }

  module _ (react : H → ErrorCode → Bytes → List (Call Bytes H SerialCall)) where
    pub notify_read-SerialInv :
        (ec : ErrorCode) (value : Bytes) (s : SerialSession H)
        → SerialInv s
        → IsAfterRead s.trace
        → SerialInv (notify_read serial_derived run_serial_call react ec value s)
    notify_read-SerialInv ec value s v h =
        notify_read-Preserves serial_derived-Preserves run_serial_call-SerialInv react ec value s v
          (record {
            base = notify-Inv s v.base ec value h;
            mode = v.mode;
            exclusive = v.exclusive;
            unpaused = v.unpaused;
            room = v.room;
          })

    read_completed-SerialInv :
        (a : Arrival) (s : SerialSession H)
        → SerialInv s
        → 0 < pending_reads s.trace
        → SerialInv (read_completed react a s)
    unfolding read_completed
    read_completed-SerialInv a s v h =
        if_cases SerialInv (s.own.read_pause_for_write && is_aborted a.ec)
          (λ _. schedule-SerialInv _ (end_read-SerialInv a s v h))
          (λ _.
            if_cases SerialInv (failed a.ec)
              (λ _.
                close-SerialInv _ (notify_read-SerialInv a.ec [] _ (end_read-SerialInv a s v h) tt))
              (λ _.
                schedule-SerialInv _
                  (notify_read-SerialInv success _ _ (end_read-SerialInv a s v h) tt)))

    pub serial_machine-Keeps : Keeps (serial_machine react) SerialInv
    serial_machine-Keeps = record {
      base = serial_derived-Preserves;
      own = run_serial_call-SerialInv;
      read = λ a s v h _. read_completed-SerialInv a s v h;
      write = λ ec s v h. write_completed-SerialInv ec s v h;
    }

    pub serial_session-SerialInv :
        {s t : SerialSession H} → SerialInv s → Reach (serial_machine react) s t → SerialInv t
    serial_session-SerialInv v r = Reach-Keeps serial_machine-Keeps v r
