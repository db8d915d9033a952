-- ===== src/Core/Arrival.antt =====
-- The completion of an asynchronous read: its code, and the bytes that Boost.Asio put at the front
-- of the buffer, so that `bytes_transferred` is their number.
use transit_session.Base.{
  ℕ, ◌≤◌, ◌≡◌, List, ◌++◌, length, take, drop, take-length-append, arith, length-append,
  length-drop,
}
use transit_session.Errors.{ErrorCode}

pub record Arrival : Type 0 where
  pub ec : ErrorCode
  pub bytes : List ℕ

-- The buffer after the bytes have come in.
abbrev pub fill : List ℕ → List ℕ → List ℕ
fill bytes buffer = bytes ++ drop (length bytes) buffer

pub take-fill : (bytes buffer : List ℕ) → take (length bytes) (fill bytes buffer) ≡ bytes
take-fill bytes buffer = take-length-append bytes (drop (length bytes) buffer)

pub length-fill : (bytes b : List ℕ) → length b ≤ length (fill bytes b)
length-fill bytes b =
    omega (arith, length-append bytes (drop (length bytes) b), length-drop (length bytes) b)
