-- ===== src/Can.antt =====
-- transport/can/can_config.hpp and transport/can/can_frame.hpp: the frames and the configuration of
-- a SocketCAN session. `bytes` is the array `data` of the source.
use transit_session.Base.{ℕ, Bool, true, false, List, [], replicate}
use Prim.Native.String.{String}
pub mod Abi
pub mod Codec
pub mod Session
pub mod Open
pub mod Descriptor
pub mod Filters
pub mod Created
pub mod Reopened
pub mod Safety
pub mod Liveness
pub mod Delivery
pub mod Loops
pub mod Linux
mod Tests
pub mod Fields
pub mod RoundTrip

pub record CanFilter : Type 0 where
  pub id : ℕ
  pub mask : ℕ
  pub extended_id : Bool
  pub remote_frame : Bool

pub record CanConfig : Type 0 where
  pub interface_name : String
  pub enable_can_fd : Bool
  pub loopback : Bool
  pub receive_own_messages : Bool
  pub filters : List CanFilter

abbrev pub default_can_config : CanConfig
default_can_config = record {
  interface_name = "can0";
  enable_can_fd = true;
  loopback = true;
  receive_own_messages = false;
  filters = [];
}

abbrev pub classic_data_size : ℕ
classic_data_size = 8

abbrev pub fd_data_size : ℕ
fd_data_size = 64

pub record CanFrame : Type 0 where
  pub id : ℕ
  pub data_length : ℕ
  pub bytes : List ℕ
  pub extended_id : Bool
  pub remote_frame : Bool
  pub error_frame : Bool
  pub fd_frame : Bool
  pub bitrate_switch : Bool
  pub error_state_indicator : Bool

-- `CanFrame {}`.
unfoldable pub default_can_frame : CanFrame
default_can_frame = record {
  id = 0;
  data_length = 0;
  bytes = replicate fd_data_size 0;
  extended_id = false;
  remote_frame = false;
  error_frame = false;
  fd_frame = false;
  bitrate_switch = false;
  error_state_indicator = false;
}
