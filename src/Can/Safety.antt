-- ===== src/Can/Safety.antt =====
-- The base class's invariant for the CAN session.
use transit_session.Base.{
  ◌<◌, ◌≡◌, refl, true, false, List, arith, if_cases, option_cases, length, ℕ,
}
use transit_session.Errors.{ErrorCode, success, failed}
use transit_session.Core.{
  transport_closed, Call, log, close_session, schedule_operations, notify_read,
}
use transit_session.Core.Trace.{IsAfterRead, pending_reads, pending_writes}
use transit_session.Core.Preserve.{Preserves, schedule_operations-Preserves, notify_read-Preserves}
use transit_session.Core.Machine.{Keeps, Reach, Reach-Keeps}
use transit_session.Core.Invariant.{Inv, begin_read-Inv, begin_write-Inv, current_cases, accept-Inv}
use transit_session.Core.Ended.{
  close_session-Inv, fail_write-Inv, consume_write-Inv, end_read-Inv, notify-Inv, assign-Inv,
}
use transit_session.Can.{CanFrame, default_can_frame}
use transit_session.Core.Arrival.{Arrival, fill}
use transit_session.Can.Abi.{LinuxCan}
use transit_session.Can.Codec.{encode_frame, decode_frame}
use transit_session.Can.Session.{
  CanState, CanSession, can_start_read, can_start_write, do_read, do_write, close_transport,
  can_derived, no_own, write_completed, fail_read, read_completed, can_machine,
}

module _ {H : Type 0} where
  abbrev closed_own : CanSession H → CanState
  closed_own s = record (s.own) { socket_open = false }

  close_transport_lem :
      (s : CanSession H)
      → close_transport s ≡ log transport_closed (record s { own = closed_own s })
  unfolding close_transport
  close_transport_lem s = refl

  close-Inv : (s : CanSession H) → Inv s → Inv (close_session close_transport s)
  close-Inv s v = close_session-Inv close_transport closed_own s (λ t _ _. close_transport_lem t) v

  module _ (abi : LinuxCan) where
    do_write-Inv : (s : CanSession H) → Inv s → can_start_write s ≡ true → Inv (do_write abi s)
    unfolding do_write can_start_write
    do_write-Inv s v h =
        current_cases Inv s.write_queue (λ _. v)
          (λ w q e.
            option_cases Inv (encode_frame abi s.own.config w) (λ _. close-Inv s v)
              (λ b _. begin_write-Inv s v w q s.own e (ground arith) (ground arith)))

    pub can_derived-Preserves : Preserves (can_derived {H = H} abi) Inv
    unfolding do_read can_start_read
    can_derived-Preserves = record {
      do_read = λ s v h. begin_read-Inv s v s.own (ground arith) (ground arith);
      do_write = do_write-Inv;
      close = close-Inv;
      accept = λ s w v. accept-Inv s v w;
      enable = λ s v c. assign-Inv s v s.read_handler true s.own (λ e. cc);
      disable = λ s v. assign-Inv s v s.read_handler false s.own (λ _. refl);
      handle = λ s h v. assign-Inv s v h s.read_enabled s.own v.disabled;
    }

    schedule-Inv : (s : CanSession H) → Inv s → Inv (schedule_operations (can_derived abi) s)
    schedule-Inv s v = schedule_operations-Preserves can_derived-Preserves s v

    write_completed-Inv :
        (ec : ErrorCode) (s : CanSession H)
        → Inv s
        → 0 < pending_writes s.trace
        → Inv (write_completed abi ec s)
    unfolding write_completed
    write_completed-Inv ec s v h =
        if_cases Inv (failed ec)
          (λ _. fail_write-Inv close_transport closed_own s (λ t _ _. close_transport_lem t) v ec h)
          (λ _. schedule-Inv _ (consume_write-Inv s v ec h))

    module _ (react : H → ErrorCode → CanFrame → List (Call CanFrame H ⊥)) where
      notify_read-Inv :
          (ec : ErrorCode) (f : CanFrame) (s : CanSession H)
          → Inv s
          → IsAfterRead s.trace
          → Inv (notify_read (can_derived abi) (no_own abi) react ec f s)
      notify_read-Inv ec f s v h =
          notify_read-Preserves can_derived-Preserves (λ x s v. v) react ec f s v
            (notify-Inv s v ec f h)

      fail_read-Inv :
          (ec : ErrorCode) (s : CanSession H)
          → Inv s
          → IsAfterRead s.trace
          → Inv (fail_read abi react ec s)
      unfolding fail_read
      fail_read-Inv ec s v h = close-Inv _ (notify_read-Inv ec default_can_frame s v h)

      read_completed-Inv :
          (a : Arrival) (s : CanSession H)
          → Inv s
          → 0 < pending_reads s.trace
          → Inv (read_completed abi react a s)
      unfolding read_completed
      read_completed-Inv a s v h =
          if_cases Inv (failed a.ec) (λ _. fail_read-Inv a.ec _ (end_read-Inv s v a.ec _ h) tt)
            (λ _.
              if_cases Inv
                (failed (decode_frame abi (length a.bytes) buffer s.own.last_read_frame).0)
                (λ _. fail_read-Inv _ _ (end_read-Inv s v a.ec _ h) tt)
                (λ _. schedule-Inv _ (notify_read-Inv success _ _ (end_read-Inv s v a.ec _ h) tt)))
        where
          buffer : List ℕ
          buffer = fill a.bytes s.own.read_buffer

      can_machine-Keeps : Keeps (can_machine abi react) Inv
      can_machine-Keeps = record {
        base = can_derived-Preserves;
        own = λ x s v. v;
        read = λ a s v h _. read_completed-Inv a s v h;
        write = λ ec s v h. write_completed-Inv ec s v h;
      }

      pub can_session-Inv : {s t : CanSession H} → Inv s → Reach (can_machine abi react) s t → Inv t
      can_session-Inv v r = Reach-Keeps can_machine-Keeps v r
