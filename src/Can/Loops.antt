-- ===== src/Can/Loops.antt =====
-- The copy loops of transport/can/can_session.hpp and the arrays that they fill.
use transit_session.Base.{
  ℕ, zero, suc, ◌-◌, ◌≤◌, ◌≡◌, refl, sym, ap, ◌∙◌, List, [], ◌∷◌, ◌++◌, arith, length, take, drop,
  replicate, take-length-append,
}
use transit_session.Can.Abi.{IsBytes}
use transit_session.Can.Codec.{copy_data}

pub length-copy_data : (n : ℕ) (src dst : List ℕ) → length (copy_data n src dst) ≡ length dst
length-copy_data zero src dst = refl
length-copy_data (suc n) (x ∷ src) (y ∷ dst) = ap suc (length-copy_data n src dst)
length-copy_data (suc n) [] dst = refl
length-copy_data (suc n) (x ∷ src) [] = refl

-- Within both arrays the loop copies the front and leaves the rest.
pub copy_data_lem :
    (n : ℕ) (src dst : List ℕ)
    → n ≤ length src
    → n ≤ length dst
    → copy_data n src dst ≡ take n src ++ drop n dst
copy_data_lem zero src dst p q = refl
copy_data_lem (suc n) [] dst p q = elim p [ ]
copy_data_lem (suc n) (x ∷ src) [] p q = elim q [ ]
copy_data_lem (suc n) (x ∷ src) (y ∷ dst) p q =
    ap (◌∷◌ x) (copy_data_lem n src dst (omega arith) (omega arith))

-- What a first loop has copied is what a second one reads.
pub copy_data-copy_data :
    (n : ℕ) (src mid dst : List ℕ)
    → n ≤ length src
    → n ≤ length mid
    → copy_data n (copy_data n src mid) dst ≡ copy_data n src dst
copy_data-copy_data zero src mid dst p q = refl
copy_data-copy_data (suc n) [] mid dst p q = elim p [ ]
copy_data-copy_data (suc n) (x ∷ src) [] dst p q = elim q [ ]
copy_data-copy_data (suc n) (x ∷ src) (y ∷ mid) [] p q = refl
copy_data-copy_data (suc n) (x ∷ src) (y ∷ mid) (z ∷ dst) p q =
    ap (◌∷◌ x) (copy_data-copy_data n src mid dst (omega arith) (omega arith))

-- The loops keep bytes bytes.
pub copy_data-IsBytes :
    (n : ℕ) (src dst : List ℕ) → IsBytes src → IsBytes dst → IsBytes (copy_data n src dst)
copy_data-IsBytes zero src dst p q = q
copy_data-IsBytes (suc n) (x ∷ src) (y ∷ dst) p q = (p.0, copy_data-IsBytes n src dst p.1 q.1)
copy_data-IsBytes (suc n) [] dst p q = q
copy_data-IsBytes (suc n) (x ∷ src) [] p q = q

pub zeros-IsBytes : (n : ℕ) → IsBytes (replicate n 0)
zeros-IsBytes zero = tt
zeros-IsBytes (suc n) = (omega arith, zeros-IsBytes n)

abbrev pub zeros : ℕ → List ℕ
zeros n = replicate n 0

zeros_eq : (m n : ℕ) → m ≡ n → zeros m ≡ zeros n
zeros_eq m n e = ap zeros e

pub drop-replicate : (n m : ℕ) → drop n (zeros m) ≡ zeros (m - n)
drop-replicate zero m = zeros_eq m (m - 0) (omega arith)
drop-replicate (suc n) zero = zeros_eq 0 (0 - suc n) (omega arith)
drop-replicate (suc n) (suc m) = drop-replicate n m ∙ zeros_eq (m - n) (suc m - suc n) (omega arith)

-- The front of a buffer.
pub take_front : (n : ℕ) (b rest : List ℕ) → length b ≡ n → take n (b ++ rest) ≡ b
take_front n b rest e = ap (λ k. take k (b ++ rest)) (sym e) ∙ take-length-append b rest
