-- ===== src/Can/Filters.antt =====
-- The filters that `configure_socket` of transport/can/can_session.hpp hands to the kernel.
use Prim.Native.Nat.{bit_and}
use transit_session.Base.{ℕ, ◌≡◌, ◌∙◌, true, not, ◌||◌, Bool-cases, inl, inr, arith}
use transit_session.Base.Bits.{
  has_flag, set_flag, has_flag-masked, has_flag-set_on, has_flag-set_other,
}
use transit_session.Can.{CanFilter}
use transit_session.Can.Abi.{LinuxCan, IsLinuxCan, eff_flag, rtr_flag}
use transit_session.Can.Open.{raw_filter}

module _ (abi : LinuxCan) (l : IsLinuxCan abi) (f : CanFilter) where
  -- A number with the flags that the filter asks for.
  abbrev flagged : ℕ → ℕ
  flagged x = set_flag f.remote_frame (rtr_flag abi) (set_flag f.extended_id (eff_flag abi) x)

  extended_on : (x : ℕ) → f.extended_id ≡ true → has_flag (flagged x) (eff_flag abi) ≡ true
  extended_on x h =
      has_flag-set_other f.remote_frame abi.eff_bit abi.rtr_bit _ l.eff_rtr
      ∙ has_flag-set_on f.extended_id abi.eff_bit x h

  -- The kernel passes a frame whose identifier word agrees with that of the filter under its mask.
  -- A filter that asks for extended identifiers lets only frames with CAN_EFF_FLAG pass, and one
  -- that asks for remote frames only frames with CAN_RTR_FLAG, with flag bits as linux/can.h
  -- documents.
  pub raw_filter_lem :
      (word : ℕ)
      → bit_and word (raw_filter abi f).can_mask
        ≡ bit_and (raw_filter abi f).can_id (raw_filter abi f).can_mask
      → ((not f.extended_id || has_flag word (eff_flag abi)) ≡ true)
        × ((not f.remote_frame || has_flag word (rtr_flag abi)) ≡ true)
  unfolding raw_filter
  raw_filter_lem word e = (
    elim (Bool-cases f.extended_id) [
      | inl h ↦
          let on : has_flag word (eff_flag abi) ≡ true =
            has_flag-masked abi.eff_bit word _ _ e (extended_on f.id h) (extended_on f.mask h) in
          ground arith
      | inr h ↦ ground arith
    ],
    elim (Bool-cases f.remote_frame) [
      | inl h ↦
          let on : has_flag word (rtr_flag abi) ≡ true =
            has_flag-masked abi.rtr_bit word _ _ e (has_flag-set_on f.remote_frame abi.rtr_bit _ h)
              (has_flag-set_on f.remote_frame abi.rtr_bit _ h) in
          ground arith
      | inr h ↦ ground arith
    ],
  )
