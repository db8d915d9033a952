-- ===== src/Can/RoundTrip.antt =====
-- A frame that is sent and received again: `decode_frame` after `encode_frame`.
use transit_session.Base.{
  ℕ, ◌≤◌, ◌<◌, ◌≡◌, ap, ◌∙◌, true, false, some, List, ◌++◌, arith, length, take,
}
use transit_session.Errors.{success}
use transit_session.Can.{CanConfig, CanFrame}
use transit_session.Can.Abi.{RawFrame, RawFdFrame, LinuxCan, IsLinuxCan}
use transit_session.Can.Codec.{
  raw_frame, raw_fd_frame, encode_frame, decode_classic_frame, decode_fd_frame, decode_frame,
}
use transit_session.Can.Loops.{take_front}
use transit_session.Can.Fields.{
  IsFrame, received, classic_back, fd_back, raw_frame-IsRawFrame, raw_fd_frame-IsRawFdFrame,
}

-- A buffer that begins with a structure is read as that structure.
module _ (abi : LinuxCan) (n : ℕ) (buffer : List ℕ) (last : CanFrame) where
  decode_frame-classic :
      (raw : RawFrame)
      → n ≡ abi.frame_size
      → abi.frame_of (take abi.frame_size buffer) ≡ raw
      → decode_frame abi n buffer last ≡ (success, decode_classic_frame abi raw)
  unfolding decode_frame
  decode_frame-classic raw e r = ground arith

  decode_frame-fd :
      (raw : RawFdFrame)
      → n ≡ abi.fd_size
      → abi.frame_size < abi.fd_size
      → abi.fd_of (take abi.fd_size buffer) ≡ raw
      → decode_frame abi n buffer last ≡ (success, decode_fd_frame abi raw)
  unfolding decode_frame
  decode_frame-fd raw e h r = ground arith

module _ (abi : LinuxCan) (l : IsLinuxCan abi) (f : CanFrame) (v : IsFrame abi f) where
  classic_trip :
      (rest : List ℕ) (last : CanFrame)
      → f.fd_frame ≡ false
      → f.data_length ≤ 8
      → let b = abi.frame_bytes (raw_frame abi f) in
        decode_frame abi (length b) (b ++ rest) last ≡ (success, received f)
  classic_trip rest last e h =
      let raw = raw_frame abi f in
      let good = raw_frame-IsRawFrame abi l f v in
      let b = abi.frame_bytes raw in
      decode_frame-classic abi (length b) (b ++ rest) last raw (l.frame_length raw good) (
        ap abi.frame_of (take_front abi.frame_size b rest (l.frame_length raw good))
        ∙ l.frame_copy raw good)
      ∙ ap (λ (g : CanFrame). (success, g)) (classic_back abi l f v e h)

  fd_trip :
      (rest : List ℕ) (last : CanFrame)
      → f.fd_frame ≡ true
      → f.data_length ≤ 64
      → let b = abi.fd_bytes (raw_fd_frame abi f) in
        decode_frame abi (length b) (b ++ rest) last ≡ (success, received f)
  fd_trip rest last e h =
      let raw = raw_fd_frame abi f in
      let good = raw_fd_frame-IsRawFdFrame abi l f v in
      let b = abi.fd_bytes raw in
      decode_frame-fd abi (length b) (b ++ rest) last raw (l.fd_length raw good) l.sizes
        (ap abi.fd_of (take_front abi.fd_size b rest (l.fd_length raw good)) ∙ l.fd_copy raw good)
      ∙ ap (λ (g : CanFrame). (success, g)) (fd_back abi l f v e h)

  -- With structures as linux/can.h documents them: a frame with an array of 64 bytes whose
  -- identifier fits its mask, and that `encode_frame` accepts, is decoded from its buffer, whatever
  -- follows it in the read buffer and whatever was read before, as the frame that was sent, with
  -- its data past `data_length` cleared, no error flag, and no CAN FD switch unless it is a CAN FD
  -- frame.
  pub decode_frame-encode_frame :
      (config : CanConfig) (buffer rest : List ℕ) (last : CanFrame)
      → encode_frame abi config f ≡ some buffer
      → decode_frame abi (length buffer) (buffer ++ rest) last ≡ (success, received f)
  unfolding encode_frame
  decode_frame-encode_frame config buffer rest last e =
      ground (arith, classic_trip rest last, fd_trip rest last)
