-- ===== src/Core/Invariant.antt =====
-- What holds of every session between two steps, whatever its protocol.
use transit_session.Base.{
  ◌≡◌, ◌≢◌, refl, ◌∙◌, sym, ap, true, false, Option, none, some, List, [], ◌∷◌, ◌++◌, arith, bit,
  append_assoc, snoc-append, snoc-ne-nil,
}
use transit_session.Core.{accepted, read_started, write_started, Session, log, construct}
use transit_session.Core.Channel.{
  owed, owed-snoc, channel_of, run_channel, run_channel-next, put-channel_at, begin-channel_at,
}
use transit_session.Core.Trace.{
  pending_reads, pending_writes, closings, messages, writes, IsDisciplined,
}

-- The cases of a test of `current_write`.
pub current_cases {ℓ κ} :
    {W : Type ℓ} {B : Type ℓ} (P : B → Type κ) (q : List W) {x : B} {f : W → B}
    → (q ≡ [] → P x)
    → ((w : W) (r : List W) → q ≡ w ∷ r → P (f w))
    → P (elim (elim q as (λ _. Option W) [ [] ↦ none | w ∷ _ ↦ some w ]) [
      | none ↦ x
      | some w ↦ f w
    ])
current_cases P [] h k = h refl
current_cases P (w ∷ r) h k = k w r refl

module _ {R W H D : Type 0} where
  pub record Inv (s : Session R W H D) : Type 0 where
    pub reading : pending_reads s.trace ≡ bit s.read_in_progress
    pub writing : pending_writes s.trace ≡ bit s.write_in_progress
    pub closing : closings s.trace ≡ bit s.closed
    pub disciplined : IsDisciplined s.trace
    pub emptied : s.closed ≡ true → s.write_queue ≡ []
    pub disabled : s.closed ≡ true → s.read_enabled ≡ false
    pub busy : s.write_in_progress ≡ true → s.closed ≡ false → s.write_queue ≢ []
    -- Messages are sent in the order in which they were accepted; the rest is in the queue.
    pub unsent : List W
    pub ordered : messages s.trace ≡ writes s.trace ++ unsent
    pub queued : s.closed ≡ false → unsent ≡ owed s.write_in_progress s.write_queue
    -- The trace is a run of the channel, which ends where the session stands.
    pub channel : run_channel s.trace ≡ some (channel_of s)

  pub construct-Inv : (d : D) → Inv (construct {R = R} {W = W} {H = H} d)
  unfolding construct
  construct-Inv d = record {
    reading = refl;
    writing = refl;
    closing = refl;
    disciplined = tt;
    emptied = λ h. refl;
    disabled = λ h. refl;
    busy = λ h. cc;
    unsent = [];
    ordered = refl;
    queued = λ h. refl;
    channel = refl;
  }

  module _ (s : Session R W H D) (v : Inv s) where
    pub begin_read-Inv :
        (d : D)
        → s.read_in_progress ≡ false
        → s.closed ≡ false
        → Inv (log read_started (record s { read_in_progress = true; own = d }))
    begin_read-Inv d h c = record {
      reading = ground (arith, v.reading);
      writing = v.writing;
      closing = v.closing;
      disciplined = ((ground (arith, v.reading), ground (arith, v.closing)), v.disciplined);
      emptied = v.emptied;
      disabled = v.disabled;
      busy = v.busy;
      unsent = v.unsent;
      ordered = v.ordered;
      queued = v.queued;
      channel = run_channel-next read_started s.trace v.channel refl;
    }

    -- Starting the write of the front message moves it from the unsent ones to the writes.
    pub begin_write-Inv :
        (w : W) (q : List W) (d : D)
        → s.write_queue ≡ w ∷ q
        → s.write_in_progress ≡ false
        → s.closed ≡ false
        → Inv (log (write_started w) (record s { write_in_progress = true; own = d }))
    begin_write-Inv w q d e h c = record {
      reading = v.reading;
      writing = ground (arith, v.writing);
      closing = v.closing;
      disciplined = ((ground (arith, v.writing), ground (arith, v.closing)), v.disciplined);
      emptied = v.emptied;
      disabled = v.disabled;
      busy = λ _ _. ground arith;
      unsent = q;
      ordered =
          v.ordered
          ∙ ap (◌++◌ (writes s.trace)) (v.queued c ∙ ground arith)
          ∙ sym (snoc-append (writes s.trace) w q);
      queued = λ _. ground arith;
      channel =
          run_channel-next (write_started w) s.trace v.channel (
            begin-channel_at s.closed s.write_in_progress s.write_queue (writes s.trace) q w c h e);
    }

    pub accept-Inv :
        (w : W)
        → s.closed ≡ false
        → Inv (log (accepted w) (record s { write_queue = s.write_queue ++ w ∷ [] }))
    accept-Inv w c = record {
      reading = v.reading;
      writing = v.writing;
      closing = v.closing;
      disciplined = (ground (arith, v.closing), v.disciplined);
      emptied = λ h. cc;
      disabled = v.disabled;
      busy = λ _ _. snoc-ne-nil s.write_queue w;
      unsent = v.unsent ++ w ∷ [];
      ordered =
          ap (λ (l : List W). l ++ w ∷ []) v.ordered
          ∙ append_assoc (writes s.trace) v.unsent (w ∷ []);
      queued = λ _.
          ap (λ (l : List W). l ++ w ∷ []) (v.queued c)
          ∙ sym (owed-snoc w s.write_in_progress s.write_queue (λ h. v.busy h c));
      channel = run_channel-next (accepted w) s.trace v.channel (
          put-channel_at s.closed s.write_in_progress s.write_queue (writes s.trace) w c
            (λ h. v.busy h c));
    }
