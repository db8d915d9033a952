-- ===== src/Can/Delivery.antt =====
-- What a CAN session hands to its read handler.
use transit_session.Base.{
  ◌≡◌, ap, ◌∙◌, false, some, List, ◌++◌, arith, if_cases, if_both, ℕ, drop, option_cases,
  if◌then◌else◌, length,
}
use transit_session.Errors.{ErrorCode, success, failed}
use transit_session.Core.{Call, close_session}
use transit_session.Core.Trace.{deliveries}
use transit_session.Core.Arrival.{Arrival, fill}
use transit_session.Core.Invariant.{current_cases}
use transit_session.Core.Delivery.{
  handed, Delivered, IsQuiet, deliveries-schedule_operations, deliveries-close_session,
  deliveries-notify_read,
}
use transit_session.Can.{CanConfig, CanFrame, default_can_frame}
use transit_session.Can.Abi.{LinuxCan, IsLinuxCan}
use transit_session.Can.Codec.{encode_frame, decode_frame}
use transit_session.Can.Fields.{IsFrame, received}
use transit_session.Can.RoundTrip.{decode_frame-encode_frame}
use transit_session.Can.Session.{
  CanSession, do_read, do_write, close_transport, can_derived, no_own, fail_read, read_completed,
}

module _ {H : Type 0} (abi : LinuxCan) where
  close-Delivered :
      (k : List (ErrorCode × CanFrame)) (s : CanSession H)
      → Delivered k s
      → Delivered k (close_session close_transport s)
  unfolding close_session close_transport
  close-Delivered k s p = if_cases (Delivered k) s.closed (λ _. p) (λ _. p)

  can_derived-IsQuiet : IsQuiet (can_derived {H = H} abi)
  unfolding do_read do_write
  can_derived-IsQuiet k = record {
    do_read = λ s p _. p;
    do_write = λ s p _.
        current_cases (Delivered k) s.write_queue (λ _. p)
          (λ w q e.
            option_cases (Delivered k) (encode_frame abi s.own.config w)
              (λ _. close-Delivered k s p) (λ _ _. p));
    close = close-Delivered k;
    accept = λ s w p _. p;
    enable = λ s p _. p;
    disable = λ s p. p;
    handle = λ s h p. p;
  }

  module _ (react : H → ErrorCode → CanFrame → List (Call CanFrame H ⊥)) where
    -- The code and the frame of a completion.
    abbrev pub outcome : Arrival → CanSession H → ErrorCode × CanFrame
    outcome a s =
        if failed a.ec
        then (a.ec, default_can_frame)
        else (let (frame_ec, last) =
              decode_frame abi (length a.bytes) (fill a.bytes s.own.read_buffer)
                s.own.last_read_frame in
            if failed frame_ec then (frame_ec, default_can_frame) else (success, last))

    deliveries-fail_read :
        (ec : ErrorCode) (s : CanSession H)
        → deliveries (fail_read abi react ec s).trace
          ≡ deliveries s.trace ++ handed s.read_handler (ec, default_can_frame)
    unfolding fail_read
    deliveries-fail_read ec s =
        deliveries-close_session can_derived-IsQuiet _
        ∙ deliveries-notify_read can_derived-IsQuiet (no_own abi) (λ k x t p. p) react ec
            default_can_frame s

    -- The completion of a read adds one result to what the handler that is set was given, and
    -- nothing without a handler: the error of the read with an empty frame, the error of the
    -- decoder with an empty frame, or success with the decoded frame; whatever calls the handler
    -- makes.
    pub deliveries-read_completed :
        (a : Arrival) (s : CanSession H)
        → deliveries (read_completed abi react a s).trace
          ≡ deliveries s.trace ++ handed s.read_handler (outcome a s)
    unfolding read_completed
    deliveries-read_completed a s =
        if_both Gives (failed a.ec) (λ _. deliveries-fail_read a.ec _)
          (λ _.
            if_both Gives
              (failed (decode_frame abi (length a.bytes) buffer s.own.last_read_frame).0)
              (λ _. deliveries-fail_read _ _)
              (λ _.
                deliveries-schedule_operations can_derived-IsQuiet _
                ∙ deliveries-notify_read can_derived-IsQuiet (no_own abi) (λ k x t p. p) react
                    success _ _))
      where
        buffer : List ℕ
        buffer = fill a.bytes s.own.read_buffer

        Gives : CanSession H → ErrorCode × CanFrame → Type 0
        Gives t o = deliveries t.trace ≡ deliveries s.trace ++ handed s.read_handler o

    -- End to end, with structures as linux/can.h documents them: when a read completes without
    -- error with exactly the bytes into which a sender, with any configuration, encoded a frame
    -- with an array of 64 bytes whose identifier fits its mask, the handler that is set is given
    -- success and that frame, once: its data past `data_length` cleared, no error flag, and no CAN
    -- FD switch unless it is a CAN FD frame. Without a handler nothing is given.
    pub deliveries-encode_frame :
        IsLinuxCan abi
        → (config : CanConfig) (f : CanFrame) → IsFrame abi f
        → (a : Arrival) (s : CanSession H) → failed a.ec ≡ false
        → encode_frame abi config f ≡ some a.bytes
        → deliveries (read_completed abi react a s).trace
          ≡ deliveries s.trace ++ handed s.read_handler (success, received f)
    deliveries-encode_frame l config f v a s ok e =
        deliveries-read_completed a s ∙ ap (λ o. deliveries s.trace ++ handed s.read_handler o) same
      where
        same : outcome a s ≡ (success, received f)
        same = ground (
          arith,
          decode_frame-encode_frame abi l f v config a.bytes
              (drop (length a.bytes) s.own.read_buffer) s.own.last_read_frame e,
        )
