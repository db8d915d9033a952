-- ===== src/Example/Echo/Served.antt =====
-- What the echo server writes, from the moment at which `attach_echo_behavior` runs.
use transit_session.Base.{◌≡◌, ap, ◌∙◌, true, false, Bool, none, List, [], ◌++◌, append_assoc}
use transit_session.Errors.{ErrorCode, failed}
use transit_session.Core.{construct}
use transit_session.Core.Trace.{writes}
use transit_session.Core.Growth.{messages-writes}
use transit_session.Core.Settled.{Settled}
use transit_session.Websocket.{Bytes, Stream, WebSocketServerConfig}
use transit_session.Websocket.ServerSession.{run_server_call, create}
use transit_session.Websocket.ServerSession.Safety.{ServerInv}
use transit_session.Websocket.ServerSession.Start.{
  accepted_session, ready, ready-eq, accepted_server-ServerInv, accepted_server-Settled,
}
use transit_session.Example.Echo.{
  EchoHandler, EchoSession, echo_react, attach_echo_behavior, EchoReach, received,
}
use transit_session.Example.Echo.Answers.{
  Answered, EchoReach-Answered, EchoReach-Reach, attach-Reach, attach-Answered,
}

-- What the invariants of the session and the answers say together.
pub echoed :
    (t : EchoSession)
    → ServerInv t
    → Settled t
    → Answered t
    → ((rest : List Bytes) × (received t.trace ≡ writes t.trace ++ rest))
      × (t.closed ≡ false → t.write_in_progress ≡ false → received t.trace ≡ writes t.trace)
echoed t v w a =
    let (rest, e) = a.front in
    (
      (
        v.base.unsent ++ rest,
        e
            ∙ ap (λ (l : List Bytes). l ++ rest) v.base.ordered
            ∙ append_assoc (writes t.trace) v.base.unsent rest,
      ),
      λ c n. a.all c ∙ messages-writes t v.base w c n,
    )

module _ (stream : Stream) (config : WebSocketServerConfig) (handler_set : Bool)
    (no_delay_answer accept_ec : ErrorCode) where
  -- The session when its start handler is called.
  abbrev pub first : EchoSession
  first = ready stream config handler_set no_delay_answer accept_ec

  module _ (is_open : stream.is_open ≡ true)
      (begun : (accepted_session {H = EchoHandler} stream config handler_set no_delay_answer
          accept_ec).1
        ≡ none)
      (ok : failed accept_ec ≡ false) where
    pub no_trace : first.trace ≡ []
    unfolding run_server_call create construct
    no_trace =
        ap (λ t. t.trace)
          (ready-eq stream config handler_set no_delay_answer accept_ec is_open begun ok)

    pub first-good :
        (t : EchoSession)
        → EchoReach (attach_echo_behavior first) t
        → ServerInv t × Settled t × Answered t
    first-good t r =
        let reached = EchoReach-Reach (attach-Reach first) r in
        (
          accepted_server-ServerInv stream config handler_set no_delay_answer accept_ec is_open
              begun ok echo_react reached,
          accepted_server-Settled stream config handler_set no_delay_answer accept_ec is_open begun
              ok echo_react reached,
          EchoReach-Answered (attach-Answered first no_trace) r,
        )

    -- An echo server session over an open socket, whose handshake has succeeded and whose options
    -- were set, writes nothing but the messages that it received, each once and in their order,
    -- whatever arrives, however the writes end and whenever it is closed; and while it is open and
    -- no write is under way, it has written every message that it received.
    pub echo_server_lem :
        {t : EchoSession}
        → EchoReach (attach_echo_behavior first) t
        → ((rest : List Bytes) × (received t.trace ≡ writes t.trace ++ rest))
          × (t.closed ≡ false → t.write_in_progress ≡ false → received t.trace ≡ writes t.trace)
    echo_server_lem {t} r = let (v, w, a) = first-good t r in echoed t v w a
