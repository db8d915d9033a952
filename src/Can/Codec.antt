-- ===== src/Can/Codec.antt =====
-- transport/can/can_session.hpp: `encode_frame`, `decode_frame` and what they call.
use Prim.Native.Nat.{min, bit_and}
use transit_session.Base.{
  ℕ, zero, suc, ◌%◌, ◌^◌, true, false, not, ◌||◌, Option, none, some, List, ◌∷◌, ltb, ◌==◌,
  if◌then◌else◌, take, replicate,
}
use transit_session.Base.Bits.{has_flag, set_flag}
use transit_session.Errors.{ErrorCode, success, protocol_error}
use transit_session.Can.{CanConfig, CanFrame, classic_data_size, fd_data_size, default_can_frame}
use transit_session.Can.Abi.{
  RawFrame, RawFdFrame, LinuxCan, eff_mask, eff_flag, rtr_flag, err_flag, brs_flag, esi_flag,
}

-- `for (i = 0; i < n; ++i) dst[i] = src[i];`. Past the end of an array it stops.
abbrev pub copy_data : ℕ → List ℕ → List ℕ → List ℕ
copy_data zero src dst = dst
copy_data (suc n) (x ∷ src) (_ ∷ dst) = x ∷ copy_data n src dst
copy_data (suc n) _ dst = dst

module _ (abi : LinuxCan) where
  -- `can_id` as both branches of `encode_frame` build it.
  unfoldable pub encode_id : CanFrame → ℕ
  encode_id frame =
      set_flag frame.remote_frame (rtr_flag abi)
        (set_flag frame.extended_id (eff_flag abi) frame.id)

  unfoldable pub raw_frame : CanFrame → RawFrame
  raw_frame frame = record {
    can_id = encode_id frame;
    can_dlc = frame.data_length % 2 ^ 8;
    bytes = copy_data frame.data_length frame.bytes (replicate classic_data_size 0);
  }

  unfoldable pub raw_fd_frame : CanFrame → RawFdFrame
  raw_fd_frame frame = record {
    can_id = encode_id frame;
    len = frame.data_length % 2 ^ 8;
    flags =
        set_flag frame.error_state_indicator (esi_flag abi)
          (set_flag frame.bitrate_switch (brs_flag abi) 0);
    bytes = copy_data frame.data_length frame.bytes (replicate fd_data_size 0);
  }

  -- `none` is the null pointer that refuses the frame.
  unfoldable pub encode_frame : CanConfig → CanFrame → Option (List ℕ)
  encode_frame config frame =
      if frame.fd_frame
      then (if not config.enable_can_fd || ltb fd_data_size frame.data_length
          then none
          else some (abi.fd_bytes (raw_fd_frame frame)))
      else (if ltb classic_data_size frame.data_length
          then none
          else some (abi.frame_bytes (raw_frame frame)))

  unfoldable pub decode_classic_frame : RawFrame → CanFrame
  unfolding default_can_frame
  decode_classic_frame raw = record default_can_frame {
    id = bit_and raw.can_id (eff_mask abi);
    extended_id = has_flag raw.can_id (eff_flag abi);
    remote_frame = has_flag raw.can_id (rtr_flag abi);
    error_frame = has_flag raw.can_id (err_flag abi);
    fd_frame = false;
    data_length = raw.can_dlc;
    bytes = copy_data (min raw.can_dlc classic_data_size) raw.bytes (replicate fd_data_size 0);
  }

  unfoldable pub decode_fd_frame : RawFdFrame → CanFrame
  unfolding default_can_frame
  decode_fd_frame raw = record default_can_frame {
    id = bit_and raw.can_id (eff_mask abi);
    extended_id = has_flag raw.can_id (eff_flag abi);
    remote_frame = has_flag raw.can_id (rtr_flag abi);
    error_frame = has_flag raw.can_id (err_flag abi);
    fd_frame = true;
    bitrate_switch = has_flag raw.flags (brs_flag abi);
    error_state_indicator = has_flag raw.flags (esi_flag abi);
    data_length = raw.len;
    bytes = copy_data (min raw.len fd_data_size) raw.bytes (replicate fd_data_size 0);
  }

  -- The code that is returned, and `last_read_frame_` from its value before.
  unfoldable pub decode_frame : ℕ → List ℕ → CanFrame → ErrorCode × CanFrame
  unfolding decode_classic_frame decode_fd_frame
  decode_frame bytes_transferred raw_buffer last_read_frame =
      if bytes_transferred == abi.frame_size
      then (success, decode_classic_frame (abi.frame_of (take abi.frame_size raw_buffer)))
      else (if bytes_transferred == abi.fd_size
          then (success, decode_fd_frame (abi.fd_of (take abi.fd_size raw_buffer)))
          else (protocol_error, last_read_frame))
