-- ===== src/Serial.antt =====
-- transport/serial/serial_config.hpp: the configuration of a serial port.
use transit_session.Base.{ℕ, Bool, true, false, List, replicate}
use Prim.Native.String.{String}
pub mod Session
pub mod Invariant
pub mod Safety
pub mod Open
pub mod Liveness
pub mod Created
pub mod Reconfigured
pub mod Delivery
mod Tests

pub data DuplexMode : Type 0 where
  full_duplex half_duplex : DuplexMode

abbrev pub is_half : DuplexMode → Bool
is_half full_duplex = false
is_half half_duplex = true

abbrev pub default_read_buffer_size : ℕ
default_read_buffer_size = 1024

-- The values of Boost.Asio's option types that a configuration holds.
pub data Parity : Type 0 where
  no_parity odd even : Parity

pub data StopBits : Type 0 where
  one onepointfive two : StopBits

pub data FlowControl : Type 0 where
  no_flow software hardware : FlowControl

pub record SerialPortConfig : Type 0 where
  pub device_path : String
  pub baud_rate : ℕ
  pub character_size : ℕ
  pub parity : Parity
  pub stop_bits : StopBits
  pub flow_control : FlowControl
  pub duplex_mode : DuplexMode
  pub read_buffer_size : ℕ

abbrev pub default_serial_config : SerialPortConfig
default_serial_config = record {
  device_path = "/dev/ttyACM0";
  baud_rate = 115200;
  character_size = 8;
  parity = no_parity;
  stop_bits = one;
  flow_control = no_flow;
  duplex_mode = full_duplex;
  read_buffer_size = default_read_buffer_size;
}

-- The members of `SerialSession`; `port_open` is `socket_.is_open()`.
pub record SerialState : Type 0 where
  pub port_open : Bool
  pub duplex_mode : DuplexMode
  pub read_buffer : List ℕ
  pub read_pause_for_write : Bool

unfoldable pub serial_state : SerialState
serial_state = record {
  port_open = false;
  duplex_mode = full_duplex;
  read_buffer = replicate default_read_buffer_size 0;
  read_pause_for_write = false;
}
