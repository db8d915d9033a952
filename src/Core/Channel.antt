-- ===== src/Core/Channel.antt =====
-- What a session promises of its writes: a channel that takes messages while it is open, sends them
-- one at a time in the order in which it took them, and loses those that wait when it is shut.
use transit_session.Base.{
  ◌≡◌, ◌≢◌, refl, sym, ap, ◌∙◌, Bool, true, false, not, ◌&&◌, Option, none, some, List, [], ◌∷◌,
  ◌++◌, if◌then◌else◌,
}
use transit_session.Core.{Event, accepted, write_started, write_finished, transport_closed, Session}
use transit_session.Core.Trace.{writes}

pub record Channel (W : Type 0) : Type 0 where
  pub waiting : List W
  pub sending : Bool
  pub sent : List W
  pub is_open : Bool

module _ {W : Type 0} where
  abbrev pub new_channel : Channel W
  new_channel = record { waiting = []; sending = false; sent = []; is_open = true }

  abbrev pub put : W → Channel W → Option (Channel W)
  put w c = if c.is_open then some (record c { waiting = c.waiting ++ w ∷ [] }) else none

  -- The message that has waited longest is sent.
  abbrev pub begin : Channel W → Option (Channel W)
  begin c =
      if c.is_open && not c.sending
      then elim c.waiting [
        | [] ↦ none
        | w ∷ rest ↦ some (record c { waiting = rest; sending = true; sent = c.sent ++ w ∷ [] })
      ]
      else none

  abbrev pub finish : Channel W → Option (Channel W)
  finish c = if c.sending then some (record c { sending = false }) else none

  abbrev pub shut : Channel W → Option (Channel W)
  shut c = if c.is_open then some (record c { waiting = []; is_open = false }) else none

-- What is still to be started: while a write is under way the front of the queue is being sent.
abbrev pub owed {ℓ} : {W : Type ℓ} → Bool → List W → List W
owed false q = q
owed true [] = []
owed true (w ∷ q) = q

module _ {W : Type 0} where
  -- The channel of a session that is closed or not, and writing or not.
  abbrev channel_at : Bool → Bool → List W → List W → Channel W
  channel_at closed writing queue sent = record {
    waiting = if closed then [] else owed writing queue;
    sending = writing;
    sent = sent;
    is_open = not closed;
  }

  pub owed-snoc :
      (w : W) (b : Bool) (q : List W)
      → (b ≡ true → q ≢ [])
      → owed b (q ++ w ∷ []) ≡ owed b q ++ w ∷ []
  owed-snoc w false q h = refl
  owed-snoc w true [] h = absurd (h refl refl)
  owed-snoc w true (x ∷ q) h = refl

  pub put-channel_at :
      (c b : Bool) (q sent : List W) (w : W)
      → c ≡ false
      → (b ≡ true → q ≢ [])
      → put w (channel_at c b q sent) ≡ some (channel_at c b (q ++ w ∷ []) sent)
  put-channel_at true b q sent w h k = cc
  put-channel_at false b q sent w h k =
      ap (λ l. some (record { waiting = l; sending = b; sent = sent; is_open = true }))
        (sym (owed-snoc w b q k))

  pub begin-channel_at :
      (c b : Bool) (q sent rest : List W) (w : W)
      → c ≡ false
      → b ≡ false
      → q ≡ w ∷ rest
      → begin (channel_at c b q sent) ≡ some (channel_at c true q (sent ++ w ∷ []))
  begin-channel_at true b q sent rest w h k e = cc
  begin-channel_at false true q sent rest w h k e = cc
  begin-channel_at false false [] sent rest w h k e = cc
  begin-channel_at false false (x ∷ q) sent rest w h k e =
      let same : x ≡ w = cc in
      ap
        (λ (y : W).
          some (record { waiting = q; sending = true; sent = sent ++ y ∷ []; is_open = true }))
        same

  pub finish-channel_at :
      (c b : Bool) (q sent rest : List W)
      → b ≡ true
      → rest ≡ owed true q
      → finish (channel_at c b q sent) ≡ some (channel_at c false rest sent)
  finish-channel_at c false q sent rest h e = cc
  finish-channel_at c true q sent rest h e = ap (λ l. some (channel_at c false l sent)) (sym e)

  pub shut-channel_at :
      (c b : Bool) (q sent : List W)
      → c ≡ false
      → shut (channel_at c b q sent) ≡ some (channel_at true b [] sent)
  shut-channel_at true b q sent h = cc
  shut-channel_at false b q sent h = refl

-- A session as a channel: the queue without the message that is being sent.
abbrev pub channel_of : {R W H D : Type 0} → Session R W H D → Channel W
channel_of s = channel_at s.closed s.write_in_progress s.write_queue (writes s.trace)

module _ {R W : Type 0} where
  -- What an event of a session means to the channel.
  abbrev pub channel_step : Event R W → Channel W → Option (Channel W)
  channel_step (accepted w) c = put w c
  channel_step (write_started _) c = begin c
  channel_step (write_finished _) c = finish c
  channel_step transport_closed c = shut c
  channel_step _ c = some c

  -- The channel after the events of a trace; `none` when it does not allow one of them.
  abbrev pub run_channel : List (Event R W) → Option (Channel W)
  run_channel [] = some new_channel
  run_channel (e ∷ t) = elim (run_channel t) [ none ↦ none | some c ↦ channel_step e c ]

  pub run_channel-next :
      (e : Event R W) (t : List (Event R W)) {c d : Channel W}
      → run_channel t ≡ some c
      → channel_step e c ≡ some d
      → run_channel (e ∷ t) ≡ some d
  run_channel-next e t h k = ap (λ o. elim o [ none ↦ none | some c ↦ channel_step e c ]) h ∙ k
