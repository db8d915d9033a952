-- ===== src/Can/Fields.antt =====
-- The members of a frame, through the raw structures of transport/can/can_session.hpp and back.
use Prim.Native.Nat.{min, bit_and}
use transit_session.Base.{
  ℕ, ◌-◌, ◌%◌, ◌^◌, ◌≤◌, ◌<◌, ◌≡◌, sym, ap, ◌∙◌, true, false, ◌&&◌, ◌++◌, arith, length, take,
  replicate, length-replicate,
}
use transit_session.Base.Bits.{
  has_flag, has_flag-set_flag, has_flag-set_other, has_flag-small, mask-set_flag, mask-small,
  set_flag-lt, pow_mono, pow_pos,
}
use transit_session.Can.{CanFrame, fd_data_size, default_can_frame}
use transit_session.Can.Abi.{
  IsBytes, IsRawFrame, IsRawFdFrame, LinuxCan, IsLinuxCan, eff_mask, eff_flag, rtr_flag, err_flag,
  brs_flag, esi_flag,
}
use transit_session.Can.Codec.{
  copy_data, encode_id, raw_frame, raw_fd_frame, decode_classic_frame, decode_fd_frame,
}
use transit_session.Can.Loops.{
  length-copy_data, copy_data-IsBytes, zeros-IsBytes, copy_data_lem, copy_data-copy_data, zeros,
  drop-replicate,
}

-- A frame as the callers of `send` may pass it: the identifier fits its mask.
pub record IsFrame (abi : LinuxCan) (f : CanFrame) : Type 0 where
  pub id_fits : f.id < 2 ^ abi.id_bits
  pub array : length f.bytes ≡ fd_data_size
  pub data_fits : IsBytes f.bytes

-- The frame that arrives: data past `data_length` is 0, no error flag, and the two switches of CAN
-- FD only in a CAN FD frame.
abbrev pub received : CanFrame → CanFrame
received f = record f {
  bytes = take f.data_length f.bytes ++ replicate (fd_data_size - f.data_length) 0;
  error_frame = false;
  bitrate_switch = f.fd_frame && f.bitrate_switch;
  error_state_indicator = f.fd_frame && f.error_state_indicator;
}

module _ (abi : LinuxCan) (l : IsLinuxCan abi) (f : CanFrame) (v : IsFrame abi f) where
  id_small : (k : ℕ) → abi.id_bits ≤ k → f.id < 2 ^ k
  id_small k h = omega (arith, v.id_fits, pow_mono abi.id_bits k h)

  encode_id-fits : encode_id abi f < 2 ^ 32
  unfolding encode_id
  encode_id-fits = set_flag-lt f.remote_frame abi.rtr_bit 32 _ l.rtr_word (
      set_flag-lt f.extended_id abi.eff_bit 32 f.id l.eff_word
        (id_small 32 (omega (arith, l.id_eff, l.eff_word))))

  id_back : bit_and (encode_id abi f) (eff_mask abi) ≡ f.id
  unfolding encode_id
  id_back =
      mask-set_flag f.remote_frame abi.id_bits abi.rtr_bit _ l.id_rtr
      ∙ mask-set_flag f.extended_id abi.id_bits abi.eff_bit f.id l.id_eff
      ∙ mask-small abi.id_bits f.id v.id_fits

  extended_back : has_flag (encode_id abi f) (eff_flag abi) ≡ f.extended_id
  unfolding encode_id
  extended_back =
      has_flag-set_other f.remote_frame abi.eff_bit abi.rtr_bit _ l.eff_rtr
      ∙ has_flag-set_flag f.extended_id abi.eff_bit f.id
          (has_flag-small abi.eff_bit f.id (id_small abi.eff_bit l.id_eff))

  remote_back : has_flag (encode_id abi f) (rtr_flag abi) ≡ f.remote_frame
  unfolding encode_id
  remote_back = has_flag-set_flag f.remote_frame abi.rtr_bit _ (
      has_flag-set_other f.extended_id abi.rtr_bit abi.eff_bit f.id (λ e. l.eff_rtr (sym e))
      ∙ has_flag-small abi.rtr_bit f.id (id_small abi.rtr_bit l.id_rtr))

  error_back : has_flag (encode_id abi f) (err_flag abi) ≡ false
  unfolding encode_id
  error_back =
      has_flag-set_other f.remote_frame abi.err_bit abi.rtr_bit _ l.err_rtr
      ∙ has_flag-set_other f.extended_id abi.err_bit abi.eff_bit f.id l.err_eff
      ∙ has_flag-small abi.err_bit f.id (id_small abi.err_bit l.id_err)

  -- What the two loops copy, with a buffer of `cap` bytes between them.
  data_back :
      (len cap : ℕ)
      → len ≡ f.data_length
      → f.data_length ≤ cap
      → cap ≤ fd_data_size
      → copy_data
          (min len cap)
          (copy_data f.data_length f.bytes (replicate cap 0))
          (replicate fd_data_size 0)
        ≡ take f.data_length f.bytes ++ replicate (fd_data_size - f.data_length) 0
  data_back len cap q h c =
      ap (λ k. copy_data k (copy_data f.data_length f.bytes (replicate cap 0)) (zeros fd_data_size))
        shorter
      ∙ copy_data-copy_data f.data_length f.bytes (zeros cap) (zeros fd_data_size)
          (omega (arith, v.array)) (omega (arith, length-replicate {0} {A = ℕ} cap 0))
      ∙ copy_data_lem f.data_length f.bytes (zeros fd_data_size) (omega (arith, v.array))
          (omega arith)
      ∙ ap (◌++◌ (take f.data_length f.bytes)) (drop-replicate f.data_length fd_data_size)
    where
      shorter : min len cap ≡ f.data_length
      shorter = omega arith

  pub classic_back :
      f.fd_frame ≡ false
      → f.data_length ≤ 8
      → decode_classic_frame abi (raw_frame abi f) ≡ received f
  unfolding decode_classic_frame raw_frame default_can_frame
  classic_back e h =
      ground
        (arith, id_back, extended_back, remote_back, error_back, data_back (f.data_length % 256) 8)

  brs_back : has_flag (raw_fd_frame abi f).flags (brs_flag abi) ≡ f.bitrate_switch
  unfolding raw_fd_frame
  brs_back =
      has_flag-set_other f.error_state_indicator abi.brs_bit abi.esi_bit _ l.brs_esi
      ∙ has_flag-set_flag f.bitrate_switch abi.brs_bit 0
          (has_flag-small abi.brs_bit 0 (pow_pos abi.brs_bit))

  esi_back : has_flag (raw_fd_frame abi f).flags (esi_flag abi) ≡ f.error_state_indicator
  unfolding raw_fd_frame
  esi_back = has_flag-set_flag f.error_state_indicator abi.esi_bit _ (
      has_flag-set_other f.bitrate_switch abi.esi_bit abi.brs_bit 0 (λ e. l.brs_esi (sym e))
      ∙ has_flag-small abi.esi_bit 0 (pow_pos abi.esi_bit))

  pub fd_back :
      f.fd_frame ≡ true → f.data_length ≤ 64 → decode_fd_frame abi (raw_fd_frame abi f) ≡ received f
  unfolding decode_fd_frame raw_fd_frame default_can_frame
  fd_back e h = ground (
    arith,
    id_back,
    extended_back,
    remote_back,
    error_back,
    brs_back,
    esi_back,
    data_back (f.data_length % 256) 64,
  )

  pub raw_frame-IsRawFrame : IsRawFrame (raw_frame abi f)
  unfolding raw_frame
  raw_frame-IsRawFrame = record {
    id_fits = encode_id-fits;
    dlc_fits = omega arith;
    array = length-copy_data f.data_length f.bytes (zeros 8);
    data_fits = copy_data-IsBytes f.data_length f.bytes (zeros 8) v.data_fits (zeros-IsBytes 8);
  }

  pub raw_fd_frame-IsRawFdFrame : IsRawFdFrame (raw_fd_frame abi f)
  unfolding raw_fd_frame
  raw_fd_frame-IsRawFdFrame = record {
    id_fits = encode_id-fits;
    len_fits = omega arith;
    flags_fit =
        set_flag-lt f.error_state_indicator abi.esi_bit 8 _ l.esi_byte
          (set_flag-lt f.bitrate_switch abi.brs_bit 8 0 l.brs_byte (omega arith));
    array = length-copy_data f.data_length f.bytes (zeros 64);
    data_fits = copy_data-IsBytes f.data_length f.bytes (zeros 64) v.data_fits (zeros-IsBytes 64);
  }
