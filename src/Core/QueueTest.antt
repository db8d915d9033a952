-- ===== src/Core/QueueTest.antt =====
-- test/core_queue_test.cpp: a session whose transport writes at once, and the program that checks the
-- order of the queue with it. The allocations that the program counts besides are not modelled.
use Prim.Native.Nat.{zero, suc}
use transit_session.Base.{
  ℕ, ◌+◌, ◌%◌, ◌^◌, ◌≡◌, refl, sym, ap, ◌∙◌, Bool, false, not, ◌&&◌, none, some, List, [], ◌∷◌,
  ◌++◌, subst, ◌||◌, append_assoc, append-nil, if◌then◌else◌, length, get_or, ◌==◌,
}
use transit_session.Errors.{success}
use transit_session.Core.{
  Session, Derived, write_started, write_finished, construct, log, has_pending_writes,
  current_write, consume_write, mark_write_started, mark_write_finished, try_write, try_read,
  schedule_operations, enqueue_write,
}

pub record Message : Type 0 where
  pub sequence : ℕ
  pub payload : List ℕ

-- `written_sequences` is the only member.
pub record TestState : Type 0 where
  pub written_sequences : List ℕ

abbrev pub TestSession : Type 0 → Type 0
TestSession H = Session Message Message H TestState

-- The loop of `make_message`, with so many rounds left.
abbrev payload_from : ℕ → ℕ → ℕ → List ℕ
payload_from zero sequence i = []
payload_from (suc left) sequence i = (sequence + i) % 2 ^ 8 ∷ payload_from left sequence (i + 1)

unfoldable pub make_message : ℕ → Message
make_message sequence = record { sequence = sequence; payload = payload_from 32 sequence 0 }

module _ {H : Type 0} where
  unfoldable pub can_start_read : TestSession H → Bool
  can_start_read s = false

  unfoldable pub can_start_write : TestSession H → Bool
  can_start_write s = not s.write_in_progress && (has_pending_writes s && not s.closed)

  unfoldable pub do_write : TestSession H → TestSession H
  do_write s = elim (current_write s) [
    | none ↦ s
    | some message ↦
        let started = log (write_started message) (mark_write_started s) in
        let written = record started {
          own = record { written_sequences = s.own.written_sequences ++ message.sequence ∷ [] };
        } in
        consume_write (log (write_finished success) (mark_write_finished written))
  ]

  abbrev pub test_derived : Derived Message Message H TestState
  test_derived = record {
    can_start_read = can_start_read;
    can_start_write = can_start_write;
    do_read = λ s. s;
    do_write = do_write;
    close_transport = λ s. s;
  }

  -- `send` on the strand, for one sequence number after the other.
  abbrev pub send_all : List ℕ → TestSession H → TestSession H
  send_all [] s = s
  send_all (n ∷ ns) s = send_all ns (enqueue_write test_derived (make_message n) s)

  -- Between two calls: what was given to the session is written.
  record IsIdle (numbers : List ℕ) (s : TestSession H) : Type 0 where
    closed : s.closed ≡ false
    writing : s.write_in_progress ≡ false
    queue : s.write_queue ≡ []
    written : s.own.written_sequences ≡ numbers

  -- The session with those three fields as they are when it is idle.
  abbrev fresh_flags : TestSession H → TestSession H
  fresh_flags s = record s { closed = false; write_in_progress = false; write_queue = [] }

  idle-same : (numbers : List ℕ) (s : TestSession H) → IsIdle numbers s → fresh_flags s ≡ s
  idle-same numbers s v = sym (
      ap (λ c. record s { closed = c }) v.closed
      ∙ ap (λ b. record s { closed = false; write_in_progress = b }) v.writing
      ∙ ap (λ q. record s { closed = false; write_in_progress = false; write_queue = q }) v.queue)

  enqueue_write-IsIdle :
      (numbers : List ℕ) (n : ℕ) (s : TestSession H)
      → IsIdle numbers s
      → IsIdle (numbers ++ n ∷ []) (enqueue_write test_derived (make_message n) s)
  unfolding enqueue_write schedule_operations try_write try_read can_start_read can_start_write
      do_write make_message
  enqueue_write-IsIdle numbers n s v =
      subst (λ t. IsIdle (numbers ++ n ∷ []) (enqueue_write test_derived (make_message n) t))
        (idle-same numbers s v)
        (record {
          closed = refl;
          writing = refl;
          queue = refl;
          written = ap (λ l. l ++ n ∷ []) v.written;
        })

  send_all-IsIdle :
      (ns numbers : List ℕ) (s : TestSession H)
      → IsIdle numbers s
      → IsIdle (numbers ++ ns) (send_all ns s)
  send_all-IsIdle [] numbers s v = subst (λ l. IsIdle l s) (sym (append-nil numbers)) v
  send_all-IsIdle (n ∷ ns) numbers s v =
      let sent = enqueue_write test_derived (make_message n) s in
      subst (λ l. IsIdle l (send_all ns sent)) (append_assoc numbers (n ∷ []) ns)
        (send_all-IsIdle ns (numbers ++ n ∷ []) sent (enqueue_write-IsIdle numbers n s v))

  abbrev pub new_session : TestSession H
  new_session = construct (record { written_sequences = [] })

-- Whatever the numbers of the messages that the test session is given, it writes each of them once, in
-- order, and nothing is left in its queue.
pub send_all_lem :
    (H : Type 0) (ns : List ℕ)
    → let s : TestSession H = send_all ns new_session in
      (s.own.written_sequences ≡ ns) × (s.write_queue ≡ [])
unfolding construct
send_all_lem H ns =
    let idle =
      send_all-IsIdle {H = H} ns [] new_session
        (record { closed = refl; writing = refl; queue = refl; written = refl }) in
    (idle.written, idle.queue)

-- `main`, but for the allocations: the two sends, and the two checks of the order.
abbrev pub main : ℕ
main =
    let written = (send_all {H = Unit {0}} (1 ∷ 2 ∷ []) new_session).own.written_sequences in
    if not (length written == 2)
    then 1
    else (if not (get_or written 0 0 == 1) || not (get_or written 1 0 == 2) then 1 else 0)

main_passes : main ≡ 0
main_passes =
    ap
      (λ written.
        if not (length written == 2)
        then 1
        else (if not (get_or written 0 0 == 1) || not (get_or written 1 0 == 2) then 1 else 0))
      (send_all_lem (Unit {0}) (1 ∷ 2 ∷ [])).0
