-- ===== src/Websocket.antt =====
-- transport/websocket/websocket_config.hpp and websocket_server_config.hpp, and what the two
-- WebSocket sessions have in common.
use Prim.Native.String.{String}
use transit_session.Base.{
  ◌∷◌, ℕ, ◌-◌, ◌*◌, ◌+◌, ◌≡◌, refl, ap, ◌∙◌, Bool, true, List, [], ◌++◌, arith, length, take, drop,
  replicate, append-nil,
}
use transit_session.Errors.{ErrorCode}
pub mod Client
pub mod ServerSession
pub mod Server
pub mod Growth
pub mod Agreement
mod Tests

-- `std::vector<char>`.
abbrev pub Bytes : Type 0
Bytes = List ℕ

pub record WebSocketConfig : Type 0 where
  pub host : String
  pub port : String
  pub target : String
  pub binary_mode : Bool
  pub tcp_no_delay : Bool
  pub max_message_size : ℕ

abbrev pub default_web_socket_config : WebSocketConfig
default_web_socket_config = record {
  host = "127.0.0.1";
  port = "9002";
  target = "/";
  binary_mode = true;
  tcp_no_delay = true;
  max_message_size = 1024 * 1024;
}

pub record WebSocketServerConfig : Type 0 where
  pub bind_address : String
  pub port : ℕ
  pub binary_mode : Bool
  pub tcp_no_delay : Bool
  pub max_message_size : ℕ
  pub backlog : ℕ

abbrev pub default_web_socket_server_config : WebSocketServerConfig
default_web_socket_server_config = record {
  bind_address = "127.0.0.1";
  port = 9002;
  binary_mode = true;
  tcp_no_delay = true;
  max_message_size = 1024 * 1024;
  backlog = 16;
}

-- `timeout::suggested` of a role, or what a stream has as Beast makes it.
pub data StreamTimeout : Type 0 where
  no_timeout suggested_client suggested_server : StreamTimeout

-- The settings of Beast's stream that the sessions assign; `is_open` is that of the TCP socket.
pub record Stream : Type 0 where
  pub is_open : Bool
  pub binary : Bool
  pub read_message_max : ℕ
  pub timeout : StreamTimeout

-- `std::vector<char> message(n)` after `buffer_copy` from the read buffer.
abbrev pub message_of : ℕ → Bytes → Bytes
message_of n buffer = take n buffer ++ replicate (n - length buffer) 0

take-length : (bytes : Bytes) → take (length bytes) bytes ≡ bytes
take-length [] = refl
take-length (x ∷ bytes) = ap (◌∷◌ x) (take-length bytes)

-- A message that has come into an empty buffer is copied whole, and leaves nothing behind.
pub message_of-length : (bytes : Bytes) → message_of (length bytes) bytes ≡ bytes
message_of-length bytes =
    ap (◌++◌ (take (length bytes) bytes)) nothing ∙ append-nil _ ∙ take-length bytes
  where
    nothing : replicate {A = ℕ} (length bytes - length bytes) 0 ≡ []
    nothing =
        let e : length bytes - length bytes ≡ 0 = omega arith in ap (λ k. replicate {A = ℕ} k 0) e

pub drop-length : (bytes : Bytes) → drop (length bytes) bytes ≡ []
drop-length [] = refl
drop-length (x ∷ bytes) = drop-length bytes
