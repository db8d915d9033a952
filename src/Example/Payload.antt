-- ===== src/Example/Payload.antt =====
-- The requests of the benchmarks: `make_payload` of example/websocket_benchmark.cpp and
-- example/serial_benchmark.cpp, `make_frame` of example/can_benchmark.cpp, and the sequence number that
-- their handlers read back. The object representation of a `std::uint32_t` is a parameter.
use Prim.Native.Nat.{zero, suc}
use transit_session.Base.{
  ℕ, ◌+◌, ◌-◌, ◌%◌, ◌^◌, ◌≤◌, ◌<◌, ◌≡◌, Bool, List, [], ◌∷◌, length, get_or, take, replicate,
  if◌then◌else◌,
}
use transit_session.Can.{CanFrame, default_can_frame, fd_data_size}
use transit_session.Can.Abi.{IsBytes}
use transit_session.Can.Codec.{copy_data}
pub mod Filled

-- `sizeof(std::uint32_t)`.
abbrev pub word_size : ℕ
word_size = 4

-- The bytes of a `std::uint32_t` in memory, and the value of such bytes.
pub record Host : Type 0 where
  pub word_bytes : ℕ → List ℕ
  pub word_of : List ℕ → ℕ

pub record IsHost (host : Host) : Type 0 where
  pub size : (w : ℕ) → length (host.word_bytes w) ≡ word_size
  pub bytes : (w : ℕ) → IsBytes (host.word_bytes w)
  pub back : (w : ℕ) → w < 2 ^ 32 → host.word_of (host.word_bytes w) ≡ w

-- `a[i] = v`. Past the end nothing is written, where the source has undefined behaviour.
abbrev pub set : List ℕ → ℕ → ℕ → List ℕ
set [] i v = []
set (x ∷ a) zero v = v ∷ a
set (x ∷ a) (suc i) v = x ∷ set a i v

-- `for (; i < end; ++i) a[i] = i & 0xff;` with `end - i` rounds left.
abbrev pub fill : ℕ → ℕ → List ℕ → List ℕ
fill zero i a = a
fill (suc left) i a = fill left (i + 1) (set a i (i % 2 ^ 8))

module _ (host : Host) where
  -- `parse_options` refuses a `payload_size` below `word_size`.
  unfoldable pub make_payload : ℕ → ℕ → List ℕ
  make_payload payload_size sequence =
      let payload = copy_data word_size (host.word_bytes sequence) (replicate payload_size 0) in
      fill (payload_size - word_size) word_size payload

  unfoldable pub make_frame : ℕ → ℕ → Bool → CanFrame
  make_frame can_id sequence fd_frame =
      let data_length = if fd_frame then 16 else 8 in
      record default_can_frame {
        id = can_id;
        fd_frame = fd_frame;
        data_length = data_length;
        bitrate_switch = fd_frame;
        bytes =
            fill (data_length - word_size) word_size
              (copy_data word_size (host.word_bytes sequence) (replicate fd_data_size 0));
      }

  -- `std::memcpy(&actual_sequence, data.data(), sizeof(actual_sequence))`.
  unfoldable pub read_sequence : List ℕ → ℕ
  read_sequence bytes = host.word_of (take word_size bytes)
