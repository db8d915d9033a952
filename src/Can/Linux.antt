-- ===== src/Can/Linux.antt =====
-- The two structures of linux/can.h on a little-endian machine with 29 identifier bits, and a system on
-- which every call succeeds, for the tests.
use transit_session.Base.{
  none, inl, ℕ, ◌+◌, ◌*◌, ◌/◌, ◌%◌, ◌^◌, ◌<◌, ◌≡◌, List, ◌∷◌, arith, drop, get_or,
}
use transit_session.Can.Abi.{LinuxCan, IsLinuxCan}
use transit_session.Can.Open.{Kernel, IsKernel}

-- The layout of the two structures on a little-endian machine.
abbrev word_at : List ℕ → ℕ
word_at bs = get_or bs 0 0 + 256 * get_or bs 1 0 + 65536 * get_or bs 2 0 + 16777216 * get_or bs 3 0

abbrev pub linux_can : LinuxCan
linux_can = record {
  id_bits = 29;
  eff_bit = 31;
  rtr_bit = 30;
  err_bit = 29;
  brs_bit = 0;
  esi_bit = 1;
  frame_size = 16;
  fd_size = 72;
  frame_bytes = λ r.
      (r.can_id % 256)
      ∷ (r.can_id / 256 % 256)
      ∷ (r.can_id / 65536 % 256)
      ∷ (r.can_id / 16777216 % 256)
      ∷ r.can_dlc
      ∷ 0
      ∷ 0
      ∷ 0
      ∷ r.bytes;
  frame_of = λ bs. record { can_id = word_at bs; can_dlc = get_or bs 4 0; bytes = drop 8 bs };
  fd_bytes = λ r.
      (r.can_id % 256)
      ∷ (r.can_id / 256 % 256)
      ∷ (r.can_id / 65536 % 256)
      ∷ (r.can_id / 16777216 % 256)
      ∷ r.len
      ∷ r.flags
      ∷ 0
      ∷ 0
      ∷ r.bytes;
  fd_of = λ bs. record {
    can_id = word_at bs;
    len = get_or bs 4 0;
    flags = get_or bs 5 0;
    bytes = drop 8 bs;
  };
}

pub linux_can-IsLinuxCan : IsLinuxCan linux_can
linux_can-IsLinuxCan = record {
  id_eff = omega arith;
  id_rtr = omega arith;
  id_err = omega arith;
  eff_rtr = omega arith;
  err_eff = omega arith;
  err_rtr = omega arith;
  eff_word = omega arith;
  rtr_word = omega arith;
  brs_esi = omega arith;
  brs_byte = omega arith;
  esi_byte = omega arith;
  sizes = omega arith;
  frame_length = λ r v. omega (arith, v.array);
  frame_copy =
      λ r v i. record { can_id = whole r.can_id v.id_fits i; can_dlc = r.can_dlc; bytes = r.bytes };
  fd_length = λ r v. omega (arith, v.array);
  fd_copy = λ r v i. record {
    can_id = whole r.can_id v.id_fits i;
    len = r.len;
    flags = r.flags;
    bytes = r.bytes;
  };
}
  where
    whole :
        (x : ℕ)
        → x < 2 ^ 32
        → x % 256
            + 256 * (x / 256 % 256)
            + 65536 * (x / 65536 % 256)
            + 16777216 * (x / 16777216 % 256)
          ≡ x
    whole x h = omega arith

-- A system on which every call succeeds.
abbrev pub working : Kernel
working = record {
  socket = inl 3;
  setsockopt = λ _ _. none;
  if_nametoindex = λ _. 2;
  index_errno = 19;
  bind = λ _ _. none;
  assign = λ _. none;
}

pub working-IsKernel : IsKernel working
working-IsKernel = record {
  socket_errno = λ e h. absurd (ground arith);
  option_errno = λ fd o e h. absurd (ground arith);
  index_errno = omega arith;
  bind_errno = λ fd i e h. absurd (ground arith);
  assign_code = λ fd ec h. absurd (ground arith);
}
