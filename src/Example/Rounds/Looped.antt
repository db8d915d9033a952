-- ===== src/Example/Rounds/Looped.antt =====
-- The run of the CAN benchmark with a bus that hands each frame back: example/can_benchmark.cpp over
-- `encode_frame` and `decode_frame` of transport/can/can_session.hpp.
use Prim.Native.Nat.{zero, suc}
use transit_session.Base.{
  ℕ, ◌+◌, ◌-◌, ◌%◌, ◌^◌, ◌≤◌, ◌<◌, ◌≡◌, refl, ap, ◌∙◌, Bool, not, none, some, List, [], ◌∷◌, ◌++◌,
  arith, ltb, ◌==◌, if◌then◌else◌, Bool-cases, inl, inr, ◌≢◌, length, take, if_cases, option_cases,
  ◌||◌,
}
use transit_session.Errors.{ErrorCode, success}
use transit_session.Can.{CanConfig, CanFrame, fd_data_size}
use transit_session.Can.Abi.{LinuxCan, IsLinuxCan, IsBytes}
use transit_session.Can.Codec.{encode_frame, decode_frame}
use transit_session.Can.Fields.{IsFrame, received}
use transit_session.Can.Loops.{zeros, copy_data-IsBytes, zeros-IsBytes}
use transit_session.Can.RoundTrip.{decode_frame-encode_frame}
use transit_session.Example.Payload.{Host, IsHost, word_size, set, fill, make_frame, read_sequence}
use transit_session.Example.Payload.Filled.{make_frame_lem}
use transit_session.Example.Rounds.{Bench, new_bench, send_next, on_sequence, on_frame}
use transit_session.Example.Rounds.Echoed.{timed_rounds, WithinLimit, IsAnswered, echo_lem}

set-IsBytes : (a : List ℕ) (i v : ℕ) → v < 256 → IsBytes a → IsBytes (set a i v)
set-IsBytes [] i v h w = tt
set-IsBytes (x ∷ a) zero v h w = (h, w.1)
set-IsBytes (x ∷ a) (suc i) v h w = (w.0, set-IsBytes a i v h w.1)

fill-IsBytes : (n i : ℕ) (a : List ℕ) → IsBytes a → IsBytes (fill n i a)
fill-IsBytes zero i a w = w
fill-IsBytes (suc n) i a w = fill-IsBytes n (i + 1) _ (set-IsBytes a i (i % 2 ^ 8) (omega arith) w)

-- The first bytes of an array do not depend on what is cut off behind them.
take-take :
    (m n : ℕ) (xs ys : List ℕ) → m ≤ n → n ≤ length xs → take m (take n xs ++ ys) ≡ take m xs
take-take zero n xs ys h k = refl
take-take (suc m) zero xs ys h k = absurd (omega arith)
take-take (suc m) (suc n) [] ys h k = absurd (omega arith)
take-take (suc m) (suc n) (x ∷ xs) ys h k =
    ap (◌∷◌ x) (take-take m n xs ys (omega arith) (omega arith))

-- What the session makes of a frame that the bus hands back, and the handler of that.
module _ (abi : LinuxCan) (config : CanConfig) (last : CanFrame)
    (read : ErrorCode → CanFrame → Bench CanFrame → Bench CanFrame) where
  abbrev pub on_loop : CanFrame → Bench CanFrame → Bench CanFrame
  on_loop frame s = elim (encode_frame abi config frame) [
    | none ↦ s
    | some buffer ↦
        let (ec, f) = decode_frame abi (length buffer) (buffer ++ []) last in read ec f s
  ]

module _ (host : Host) (l : IsHost host) (abi : LinuxCan) (la : IsLinuxCan abi) (id : ℕ)
    (fits : id < 2 ^ abi.id_bits) (fd : Bool) where
  make_frame-IsFrame : (w : ℕ) → w < 2 ^ 32 → IsFrame abi (make_frame host id w fd)
  unfolding make_frame
  make_frame-IsFrame w h = record {
    id_fits = fits;
    array = (make_frame_lem host l id w fd h).1;
    data_fits = fill-IsBytes ((if fd then 16 else 8) - word_size) word_size _ (
        copy_data-IsBytes word_size (host.word_bytes w) (zeros fd_data_size) (l.bytes w)
          (zeros-IsBytes fd_data_size));
  }

  make_frame-id : (w : ℕ) → (make_frame host id w fd).id ≡ id
  unfolding make_frame
  make_frame-id w = refl

  -- The session encodes every request, as the benchmark configures it.
  make_frame-encoded :
      (w : ℕ) (config : CanConfig)
      → config.enable_can_fd ≡ fd
      → encode_frame abi config (make_frame host id w fd) ≢ none
  unfolding make_frame encode_frame
  make_frame-encoded w config e n = elim (Bool-cases fd) [
    | inl g ↦ absurd (ground arith)
    | inr g ↦ absurd (ground arith)
  ]

  read_sequence-received :
      (w : ℕ) → w < 2 ^ 32 → read_sequence host (received (make_frame host id w fd)).bytes ≡ w
  unfolding read_sequence
  read_sequence-received w h =
      let f = make_frame host id w fd in
      let (e, size, word, _) = make_frame_lem host l id w fd h in
      ap host.word_of (
        take-take word_size f.data_length f.bytes (zeros (fd_data_size - f.data_length))
          (ground (arith, e)) (ground (arith, e, size)))
      ∙ word

  module _ (samples : ℕ) (clock : ℕ → ℕ) (config : CanConfig) (same : config.enable_can_fd ≡ fd)
      (last : CanFrame) where
    received_answers :
        (w : ℕ) (s : Bench CanFrame)
        → w < 2 ^ 32
        → on_frame host samples clock id fd success (received (make_frame host id w fd)) s
          ≡ on_sequence samples clock (λ n. make_frame host id n fd) w s
    unfolding on_frame
    received_answers w s h =
        let f = make_frame host id w fd in
        let to = on_sequence samples clock (λ n. make_frame host id n fd) w s in
        let (e, _, _, _) = make_frame_lem host l id w fd h in
        if_cases (λ t. t ≡ to) (not (f.id == id) || ltb f.data_length word_size)
          (λ g. absurd (ground (arith, e, make_frame-id w)))
          (λ _.
            ap (λ n. on_sequence samples clock (λ k. make_frame host id k fd) n s)
              (read_sequence-received w h))

    frame_answers :
        (w : ℕ) (s : Bench CanFrame)
        → w < 2 ^ 32
        → on_loop abi config last (on_frame host samples clock id fd) (make_frame host id w fd) s
          ≡ on_sequence samples clock (λ n. make_frame host id n fd) w s
    frame_answers w s h =
        let f = make_frame host id w fd in
        let to = on_sequence samples clock (λ n. make_frame host id n fd) w s in
        let P : Bench CanFrame → Type 0 = λ t. t ≡ to in
        option_cases P (encode_frame abi config f)
          (λ e. absurd (make_frame-encoded w config same e))
          (λ b e.
            ap (λ (r : ErrorCode × CanFrame). on_frame host samples clock id fd r.0 r.1 s)
              (decode_frame-encode_frame abi la f (make_frame-IsFrame w h) config b [] last e)
            ∙ received_answers w s h)

    -- With a bus that hands each frame back as it was encoded, an identifier within the mask, and a
    -- timeout thread that looks at the clock before each answer, however often, and never finds
    -- that the limit has passed, the CAN benchmark with at least one sample ends after as many
    -- rounds as there are samples: completed without a failure, with every sample sent once and
    -- answered, and no request left open.
    pub loop_frames_lem :
        (nows : ℕ → List ℕ) (limit start : ℕ)
        → ((k : ℕ) → WithinLimit limit start (nows k))
        → 0 < samples
        → IsAnswered samples (
            timed_rounds
              (on_loop abi config last (on_frame host samples clock id fd))
              nows
              limit
              start
              samples
              (send_next samples clock (λ n. make_frame host id n fd) new_bench))
    loop_frames_lem =
        echo_lem samples clock (λ n. make_frame host id n fd)
          (on_loop abi config last (on_frame host samples clock id fd)) frame_answers
