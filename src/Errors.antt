-- ===== src/Errors.antt =====
-- The values of boost::system::error_code that the library makes, tests or compares.
-- `system n` is errno n in the system category; a code is a failure unless its value is 0.
use transit_session.Base.{ℕ, Bool, true, false, not, ◌==◌}

pub data ErrorCode : Type 0 where
  success operation_aborted protocol_error device_or_resource_busy invalid_argument : ErrorCode
  system : ℕ → ErrorCode

-- `if (ec)`.
abbrev pub failed : ErrorCode → Bool
failed success = false
failed (system n) = not (n == 0)
failed _ = true

-- `ec == boost::asio::error::operation_aborted`.
abbrev pub is_aborted : ErrorCode → Bool
is_aborted operation_aborted = true
is_aborted _ = false
