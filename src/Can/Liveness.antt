-- ===== src/Can/Liveness.antt =====
-- The CAN session loses no wake-up.
use transit_session.Base.{refl, inl, inr, List, if_cases, option_cases, length}
use transit_session.Errors.{ErrorCode, failed}
use transit_session.Core.{Call, close_session}
use transit_session.Core.Machine.{Reach}
use transit_session.Core.Invariant.{current_cases}
use transit_session.Core.Settled.{
  Sending, Settled, IsEager, construct-Settled, schedule_operations-Settled, close_session-Settled,
}
use transit_session.Core.Settled
use transit_session.Can.{CanFrame}
use transit_session.Core.Arrival.{Arrival, fill}
use transit_session.Can.Abi.{LinuxCan}
use transit_session.Can.Codec.{encode_frame, decode_frame}
use transit_session.Can.Session.{
  CanSession, can_start_read, can_start_write, do_read, do_write, close_transport, can_derived,
  write_completed, fail_read, read_completed, can_machine,
}

module _ {H : Type 0} (abi : LinuxCan) where
  do_write-Sending : (s : CanSession H) → Sending (do_write abi s)
  unfolding do_write close_session close_transport
  do_write-Sending s =
      current_cases Sending s.write_queue (λ e. inr (inr e))
        (λ w q e.
          option_cases Sending (encode_frame abi s.own.config w)
            (λ _. if_cases Sending s.closed (λ c. inl c) (λ _. inl refl)) (λ b _. inr (inl refl)))

  can_derived-IsEager : IsEager (can_derived {H = H} abi)
  unfolding can_start_read can_start_write do_read close_transport
  can_derived-IsEager = record {
    write_test = λ s. refl;
    read_test = λ s. refl;
    writes = do_write-Sending;
    reads = λ s v. record { sending = v; reading = inr (inl refl) };
    closes = λ s. refl;
  }

  write_completed-Settled : (ec : ErrorCode) (s : CanSession H) → Settled (write_completed abi ec s)
  unfolding write_completed
  write_completed-Settled ec s =
      if_cases Settled (failed ec) (λ _. close_session-Settled can_derived-IsEager _)
        (λ _. schedule_operations-Settled can_derived-IsEager _)

  module _ (react : H → ErrorCode → CanFrame → List (Call CanFrame H ⊥)) where
    read_completed-Settled :
        (a : Arrival) (s : CanSession H) → Settled (read_completed abi react a s)
    unfolding read_completed fail_read
    read_completed-Settled a s =
        if_cases Settled (failed a.ec) (λ _. close_session-Settled can_derived-IsEager _)
          (λ _.
            if_cases Settled
              (failed
                (decode_frame abi (length a.bytes) (fill a.bytes s.own.read_buffer)
                  s.own.last_read_frame).0)
              (λ _. close_session-Settled can_derived-IsEager _)
              (λ _. schedule_operations-Settled can_derived-IsEager _))

    pub can_session-Settled :
        {s t : CanSession H} → Settled s → Reach (can_machine abi react) s t → Settled t
    can_session-Settled =
        Settled.Reach-Settled (can_machine abi react) can_derived-IsEager (λ x s v. v)
          read_completed-Settled write_completed-Settled
