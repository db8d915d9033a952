-- ===== src/Example/Payload/Filled.antt =====
-- What a request holds: its sequence number, then the counting bytes.
use Prim.Native.Nat.{zero, suc}
use transit_session.Base.{
  ℕ, ◌+◌, ◌-◌, ◌%◌, ◌^◌, ◌≤◌, ◌<◌, ◌≡◌, refl, sym, ap, subst, ◌∙◌, Bool, true, false, List, [], ◌∷◌,
  ◌++◌, arith, length, get_or, take, if◌then◌else◌, length-append, length-replicate,
  take-length-append, snoc-append, append-nil,
}
use transit_session.Can.{fd_data_size}
use transit_session.Can.Codec.{copy_data}
use transit_session.Can.Loops.{zeros}
use transit_session.Example.Payload.{
  word_size, Host, IsHost, set, fill, make_payload, make_frame, read_sequence,
}

-- The counting bytes from an index on.
abbrev pub counting : ℕ → ℕ → List ℕ
counting i zero = []
counting i (suc n) = i % 2 ^ 8 ∷ counting (i + 1) n

length-counting : (i n : ℕ) → length (counting i n) ≡ n
length-counting i zero = refl
length-counting i (suc n) = ap suc (length-counting (i + 1) n)

set-append :
    (xs : List ℕ) (x : ℕ) (ys : List ℕ) (v : ℕ) → set (xs ++ x ∷ ys) (length xs) v ≡ xs ++ v ∷ ys
set-append [] x ys v = refl
set-append (y ∷ xs) x ys v = ap (◌∷◌ y) (set-append xs x ys v)

zeros-split : (m k n : ℕ) → n ≡ m + k → zeros n ≡ zeros m ++ zeros k
zeros-split zero k n e = ap zeros (omega (arith, e))
zeros-split (suc m) k zero e = absurd (omega (arith, e))
zeros-split (suc m) k (suc n) e = ap (◌∷◌ 0) (zeros-split m k n (omega (arith, e)))

-- The loop fills the zeros that follow what is there.
fill-append :
    (left : ℕ) (xs ys : List ℕ)
    → fill left (length xs) (xs ++ (zeros left ++ ys)) ≡ xs ++ (counting (length xs) left ++ ys)
fill-append zero xs ys = refl
fill-append (suc left) xs ys =
    let v : ℕ = length xs % 2 ^ 8 in
    let n : length (xs ++ v ∷ []) ≡ length xs + 1 = length-append xs (v ∷ []) in
    ap (fill left (length xs + 1))
      (set-append xs 0 (zeros left ++ ys) v ∙ sym (snoc-append xs v (zeros left ++ ys)))
    ∙ subst
        (λ k.
          fill left k ((xs ++ v ∷ []) ++ (zeros left ++ ys))
          ≡ (xs ++ v ∷ []) ++ (counting k left ++ ys))
        n (fill-append left (xs ++ v ∷ []) ys)
    ∙ snoc-append xs v (counting (length xs + 1) left ++ ys)

copy_data-append : (xs ys : List ℕ) → copy_data (length xs) xs (zeros (length xs) ++ ys) ≡ xs ++ ys
copy_data-append [] ys = refl
copy_data-append (x ∷ xs) ys = ap (◌∷◌ x) (copy_data-append xs ys)

get_or-append :
    (xs ys : List ℕ) (i j d : ℕ) → j ≡ length xs + i → get_or (xs ++ ys) j d ≡ get_or ys i d
get_or-append [] ys i j d e = ap (λ k. get_or ys k d) (omega (arith, e))
get_or-append (x ∷ xs) ys i zero d e = absurd (omega (arith, e))
get_or-append (x ∷ xs) ys i (suc j) d e = get_or-append xs ys i j d (omega (arith, e))

-- A word and zeros after it, filled from the word on for a number of bytes.
filled :
    (xs ys : List ℕ) (m n : ℕ)
    → length xs ≡ m
    → fill n m (copy_data m xs (zeros m ++ (zeros n ++ ys))) ≡ xs ++ (counting m n ++ ys)
filled xs ys m n e =
    subst (λ k. fill n k (copy_data k xs (zeros k ++ (zeros n ++ ys))) ≡ xs ++ (counting k n ++ ys))
      e (ap (fill n (length xs)) (copy_data-append xs (zeros n ++ ys)) ∙ fill-append n xs ys)

get_or-front : (xs ys : List ℕ) (i d : ℕ) → i < length xs → get_or (xs ++ ys) i d ≡ get_or xs i d
get_or-front [] ys i d h = absurd (omega arith)
get_or-front (x ∷ xs) ys zero d h = refl
get_or-front (x ∷ xs) ys (suc i) d h = get_or-front xs ys i d (omega arith)

get_or-counting : (i n j d : ℕ) → j < n → get_or (counting i n) j d ≡ (i + j) % 2 ^ 8
get_or-counting i zero j d h = absurd (omega arith)
get_or-counting i (suc n) zero d h = ap (λ k. k % 2 ^ 8) (omega arith)
get_or-counting i (suc n) (suc j) d h =
    get_or-counting (i + 1) n j d (omega arith) ∙ ap (λ k. k % 2 ^ 8) (omega arith)

module _ (host : Host) (l : IsHost host) where
  -- The payload is the word and the counting bytes.
  make_payload_filled :
      (n w : ℕ)
      → word_size ≤ n
      → make_payload host n w ≡ host.word_bytes w ++ (counting word_size (n - word_size) ++ [])
  unfolding make_payload
  make_payload_filled n w h =
      ap (λ a. fill (n - word_size) word_size (copy_data word_size (host.word_bytes w) a))
        (zeros-split word_size (n - word_size) n (omega arith)
          ∙ ap (zeros word_size ++◌) (sym (append-nil (zeros (n - word_size)))))
      ∙ filled (host.word_bytes w) [] word_size (n - word_size) (l.size w)

  -- The word is read back from in front of anything.
  read_sequence-append :
      (w : ℕ) (ys : List ℕ) → w < 2 ^ 32 → read_sequence host (host.word_bytes w ++ ys) ≡ w
  unfolding read_sequence
  read_sequence-append w ys h =
      ap host.word_of (
        subst (λ k. take k (host.word_bytes w ++ ys) ≡ host.word_bytes w) (l.size w)
          (take-length-append (host.word_bytes w) ys))
      ∙ l.back w h

  -- A buffer of a size, with a sequence number and so many counting bytes after it.
  abbrev Holds : ℕ → ℕ → ℕ → List ℕ → Type 0
  Holds w n size b =
      (length b ≡ size)
      × (read_sequence host b ≡ w)
      × ((i : ℕ) → word_size ≤ i → i < word_size + n → get_or b i 0 ≡ i % 2 ^ 8)

  filled-Holds :
      (w n size : ℕ) (ys : List ℕ)
      → w < 2 ^ 32
      → word_size + n + length ys ≡ size
      → Holds w n size (host.word_bytes w ++ (counting word_size n ++ ys))
  filled-Holds w n size ys h e =
      let xs = host.word_bytes w in
      (
        omega (
          arith,
          length-append xs (counting word_size n ++ ys),
          length-append (counting word_size n) ys,
          length-counting word_size n,
          l.size w,
          e,
        ),
        read_sequence-append w (counting word_size n ++ ys) h,
        λ i a b.
            get_or-append xs (counting word_size n ++ ys) (i - word_size) i 0
              (omega (arith, l.size w))
            ∙ get_or-front (counting word_size n) ys (i - word_size) 0
                (omega (arith, length-counting word_size n))
            ∙ get_or-counting word_size n (i - word_size) 0 (omega arith)
            ∙ ap (λ k. k % 2 ^ 8) (omega arith),
      )

  -- A payload of at least four bytes has its size, holds the sequence number in its first four
  -- bytes as the handlers read it, and after them each byte is the low byte of its index.
  pub make_payload_lem :
      (n w : ℕ)
      → word_size ≤ n
      → w < 2 ^ 32
      → (length (make_payload host n w) ≡ n)
        × (read_sequence host (make_payload host n w) ≡ w)
        × ((i : ℕ) → word_size ≤ i → i < n → get_or (make_payload host n w) i 0 ≡ i % 2 ^ 8)
  make_payload_lem n w h k =
      let (size, word, rest) =
        subst (Holds w (n - word_size) n) (sym (make_payload_filled n w h))
          (filled-Holds w (n - word_size) n [] k (omega arith)) in
      (size, word, λ i a b. rest i a (omega arith))

  frame-Holds :
      (w n k : ℕ)
      → w < 2 ^ 32
      → word_size + n + k ≡ fd_data_size
      → zeros fd_data_size ≡ zeros word_size ++ (zeros n ++ zeros k)
      → Holds w n fd_data_size
          (fill n word_size (copy_data word_size (host.word_bytes w) (zeros fd_data_size)))
  frame-Holds w n k h e f =
      subst
        (λ z. Holds w n fd_data_size (fill n word_size (copy_data word_size (host.word_bytes w) z)))
        (sym f)
        (subst (Holds w n fd_data_size)
          (sym (filled (host.word_bytes w) (zeros k) word_size n (l.size w)))
          (filled-Holds w n fd_data_size (zeros k) h
            (omega (arith, e, length-replicate {A = ℕ} k 0))))

  -- A frame has a full array of data, 8 bytes of it in use, or 16 with FD; it holds the sequence number
  -- in the first four as the handler reads it, and after them each byte in use is its index.
  pub make_frame_lem :
      (id w : ℕ) (fd : Bool)
      → w < 2 ^ 32
      → ((make_frame host id w fd).data_length ≡ (if fd then 16 else 8))
        × (length (make_frame host id w fd).bytes ≡ fd_data_size)
        × (read_sequence host (make_frame host id w fd).bytes ≡ w)
        × ((i : ℕ)
            → word_size ≤ i
            → i < (make_frame host id w fd).data_length
            → get_or (make_frame host id w fd).bytes i 0 ≡ i % 2 ^ 8)
  unfolding make_frame
  make_frame_lem id w true h =
      let (size, word, rest) = frame-Holds w 12 48 h refl refl in (refl, size, word, rest)
  make_frame_lem id w false h =
      let (size, word, rest) = frame-Holds w 4 56 h refl refl in (refl, size, word, rest)
