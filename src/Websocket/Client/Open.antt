-- ===== src/Websocket/Client/Open.antt =====
-- transport/websocket/websocket_session.hpp: `create` and `open`. What the resolver, the TCP socket
-- and Beast's stream answer is a parameter.
use text.Mathlib.Text.{◌==◌ as str_eq}
use Prim.Native.String.{◌++◌ as append, String}
use transit_session.Base.{
  ◌≡◌, ◌⊎◌, Bool, true, false, not, ◌&&◌, ◌||◌, Option, none, some, List, arith, if◌then◌else◌,
  some-if, subst,
}
use transit_session.Errors.{ErrorCode, success, device_or_resource_busy, failed}
use transit_session.Core.{Call, construct}
use transit_session.Core.Machine.{Reach}
use transit_session.Core.Invariant.{construct-Inv}
use transit_session.Core.Settled.{Settled, construct-Settled}
use transit_session.Websocket.{suggested_client, Bytes, Stream, WebSocketConfig}
use transit_session.Websocket.Client.{ClientState, WebSocketSession, client_state, client_machine}
use transit_session.Websocket.Client.Safety.{ClientInv, client_session-ClientInv}
use transit_session.Websocket.Client.Progress.{client_session-Settled}

-- Answers to `resolve`, `connect`, `set_option(no_delay)` and `handshake`. `connect` of Boost.Asio
-- opens the socket and leaves it open if it succeeds; `left_open` says whether it leaves it open if
-- it fails, as Boost.Asio documents of a socket that it opened itself.
pub record Network : Type 0 where
  pub resolve_answer : String → String → ErrorCode
  pub connect_answer : String → String → ErrorCode
  pub left_open : Bool
  pub no_delay_answer : ErrorCode
  pub handshake_answer : String → String → ErrorCode

-- The value of the Host header.
unfoldable pub host_header : String → String → String
host_header host port = if str_eq port "" then host else append host (append ":" port)

module _ (network : Network) (config : WebSocketConfig) where
  abbrev with_open : Bool → Stream → Stream
  with_open b stream = record stream { is_open = b }

  -- `open` from the options on: the code and the state.
  abbrev set_up : ClientState → ErrorCode × ClientState
  set_up d =
      let ready = record (d.stream) {
        is_open = true;
        read_message_max = config.max_message_size;
        timeout = suggested_client;
        binary = config.binary_mode;
      } in
      let ec = network.handshake_answer (host_header config.host config.port) config.target in
      if failed ec
      then (ec, record d { stream = with_open false ready })
      else (success, record d { stream = ready; config = config })

  unfoldable pub open_stream : ClientState → ErrorCode × ClientState
  open_stream d =
      let resolved = network.resolve_answer config.host config.port in
      let connected = network.connect_answer config.host config.port in
      if d.stream.is_open
      then (device_or_resource_busy, d)
      else (if failed resolved
          then (resolved, d)
          else (if failed connected
              then (connected, record d { stream = with_open network.left_open d.stream })
              else (if config.tcp_no_delay && failed network.no_delay_answer
                  then (network.no_delay_answer, record d { stream = with_open false d.stream })
                  else set_up d)))

  -- What `open` reports and leaves: the read buffer is left alone. On failure the configuration stays; on success the stream is open, in the configured mode and with the
  -- configured limit, and the configuration is kept.
  abbrev Opened : ClientState → ErrorCode × ClientState → Type 0
  Opened d (ec, e) =
      (e.read_buffer ≡ d.read_buffer)
      × (failed ec ≡ true → e.config ≡ d.config)
      × (failed ec ≡ false
          → (e.stream.is_open ≡ true)
            × (e.stream.binary ≡ config.binary_mode)
            × (e.stream.read_message_max ≡ config.max_message_size)
            × (e.config ≡ config))

  pub open_stream-Opened : (d : ClientState) → Opened d (open_stream d)
  unfolding open_stream
  open_stream-Opened d = ground arith

  -- `open` of a stream that was closed, whatever the network answers: the read buffer stays; the
  -- stream is open afterwards exactly when no error is reported, or when `connect` failed and left
  -- the socket open that it had opened; the configuration is kept exactly when no error is
  -- reported, and is as before otherwise; and either an error is reported, or the stream is in the
  -- configured mode, with the configured limit and the timeouts suggested for a client.
  pub open_stream_lem :
      (d : ClientState)
      → d.stream.is_open ≡ false
      → let (ec, e) = open_stream d in
        let connect_failed =
          not (failed (network.resolve_answer config.host config.port))
          && failed (network.connect_answer config.host config.port) in
        (e.read_buffer ≡ d.read_buffer)
        × (e.stream.is_open ≡ (not (failed ec) || (connect_failed && network.left_open)))
        × (e.config ≡ (if failed ec then d.config else config))
        × ((failed ec ≡ true)
            ⊎ ((e.stream.binary ≡ config.binary_mode)
                × (e.stream.read_message_max ≡ config.max_message_size)
                × (e.stream.timeout ≡ suggested_client)))
  unfolding open_stream
  open_stream_lem d h = ground arith

  -- `open` of a session, on its stream.
  abbrev pub open_client_session :
      {H : Type 0} → WebSocketSession H → ErrorCode × WebSocketSession H
  open_client_session s = let (ec, d) = open_stream s.own in (ec, record s { own = d })

  module _ {H : Type 0} (stream : Stream) where
    unfoldable pub create : Option (WebSocketSession H) × ErrorCode
    create =
        let (ec, d) = open_stream (client_state stream) in
        (if failed ec then none else some (construct d), ec)

    pub create-ClientInv : (s : WebSocketSession H) → create.0 ≡ some s → ClientInv s × Settled s
    unfolding create
    create-ClientInv s e =
        let (ok, same) = some-if (failed opened.0) (construct opened.1) e in
        let (empty, _, good) = open_stream-Opened (client_state stream) in
        let (is_open, binary, limit, config_kept) = good ok in
        subst (λ t. ClientInv t × Settled t) same
          (
            record {
              base = construct-Inv opened.1;
              waiting = unfold construct in λ f. cc;
              mode = unfold construct in λ _. ground arith;
              limit = unfold construct in λ _. ground arith;
              opened = unfold construct in λ _. is_open;
            },
            construct-Settled opened.1,
          )
      where
        opened : ErrorCode × ClientState
        opened = open_stream (client_state stream)

    module _ (react : H → ErrorCode → Bytes → List (Call Bytes H ⊥)) where
      -- What holds of every session, closed or open, between two steps.
      pub reached-ClientInv :
          {s t : WebSocketSession H}
          → create.0 ≡ some s
          → Reach (client_machine react) s t
          → ClientInv t
      reached-ClientInv {s} e r = client_session-ClientInv react (create-ClientInv s e).0 r

      -- Between any two steps of a WebSocket client that `create` returned no wake-up is lost: it
      -- is closed, or a write is under way or nothing is queued; and it is closed, or a read is
      -- under way or reading is off.
      pub created_client-Settled :
          {s t : WebSocketSession H}
          → create.0 ≡ some s
          → Reach (client_machine react) s t
          → Settled t
      created_client-Settled {s} e r = client_session-Settled react (create-ClientInv s e).1 r
