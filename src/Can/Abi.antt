-- ===== src/Can/Abi.antt =====
-- What the session takes from linux/can.h, which is not part of the repository: the flag bits, the
-- sizes and the memory layout of `can_frame` and `canfd_frame`, with the members that it names.
use transit_session.Base.{ℕ, ◌-◌, ◌^◌, ◌≤◌, ◌<◌, ◌≡◌, ◌≢◌, List, [], ◌∷◌, length}

-- `can_frame`.
pub record RawFrame : Type 0 where
  pub can_id : ℕ
  pub can_dlc : ℕ
  pub bytes : List ℕ

-- `canfd_frame`.
pub record RawFdFrame : Type 0 where
  pub can_id : ℕ
  pub len : ℕ
  pub flags : ℕ
  pub bytes : List ℕ

pub record LinuxCan : Type 0 where
  pub id_bits : ℕ
  pub eff_bit : ℕ
  pub rtr_bit : ℕ
  pub err_bit : ℕ
  pub brs_bit : ℕ
  pub esi_bit : ℕ
  pub frame_size : ℕ
  pub fd_size : ℕ
  pub frame_bytes : RawFrame → List ℕ
  pub frame_of : List ℕ → RawFrame
  pub fd_bytes : RawFdFrame → List ℕ
  pub fd_of : List ℕ → RawFdFrame

-- CAN_EFF_MASK, CAN_EFF_FLAG, CAN_RTR_FLAG, CAN_ERR_FLAG, CANFD_BRS and CANFD_ESI.
module _ (abi : LinuxCan) where
  abbrev pub eff_mask : ℕ
  eff_mask = 2 ^ abi.id_bits - 1

  abbrev pub eff_flag : ℕ
  eff_flag = 2 ^ abi.eff_bit

  abbrev pub rtr_flag : ℕ
  rtr_flag = 2 ^ abi.rtr_bit

  abbrev pub err_flag : ℕ
  err_flag = 2 ^ abi.err_bit

  abbrev pub brs_flag : ℕ
  brs_flag = 2 ^ abi.brs_bit

  abbrev pub esi_flag : ℕ
  esi_flag = 2 ^ abi.esi_bit

-- An array of bytes.
abbrev pub IsBytes : List ℕ → Type 0
IsBytes [] = Unit {0}
IsBytes (x ∷ xs) = (x < 256) × IsBytes xs

-- A member holds a value of its type.
pub record IsRawFrame (r : RawFrame) : Type 0 where
  pub id_fits : r.can_id < 2 ^ 32
  pub dlc_fits : r.can_dlc < 256
  pub array : length r.bytes ≡ 8
  pub data_fits : IsBytes r.bytes

pub record IsRawFdFrame (r : RawFdFrame) : Type 0 where
  pub id_fits : r.can_id < 2 ^ 32
  pub len_fits : r.len < 256
  pub flags_fit : r.flags < 256
  pub array : length r.bytes ≡ 64
  pub data_fits : IsBytes r.bytes

-- What the header documents: distinct flag bits above the identifier in one 32-bit word, and that
-- a structure copied to bytes and back is the structure.
pub record IsLinuxCan (abi : LinuxCan) : Type 0 where
  pub id_eff : abi.id_bits ≤ abi.eff_bit
  pub id_rtr : abi.id_bits ≤ abi.rtr_bit
  pub id_err : abi.id_bits ≤ abi.err_bit
  pub eff_rtr : abi.eff_bit ≢ abi.rtr_bit
  pub err_eff : abi.err_bit ≢ abi.eff_bit
  pub err_rtr : abi.err_bit ≢ abi.rtr_bit
  pub eff_word : abi.eff_bit < 32
  pub rtr_word : abi.rtr_bit < 32
  pub brs_esi : abi.brs_bit ≢ abi.esi_bit
  pub brs_byte : abi.brs_bit < 8
  pub esi_byte : abi.esi_bit < 8
  pub sizes : abi.frame_size < abi.fd_size
  pub frame_length : (r : RawFrame) → IsRawFrame r → length (abi.frame_bytes r) ≡ abi.frame_size
  pub frame_copy : (r : RawFrame) → IsRawFrame r → abi.frame_of (abi.frame_bytes r) ≡ r
  pub fd_length : (r : RawFdFrame) → IsRawFdFrame r → length (abi.fd_bytes r) ≡ abi.fd_size
  pub fd_copy : (r : RawFdFrame) → IsRawFdFrame r → abi.fd_of (abi.fd_bytes r) ≡ r
