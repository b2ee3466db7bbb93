-- ===== src/Protocol/Bytes.antt =====
-- Big-endian numbers and the byte sum, as the framing uses Python's `bytes`.
use alorair_home_assistant.Base.{
  ℕ, zero, suc, ◌+◌, ◌*◌, ◌/◌, ◌%◌, ◌^◌, ◌<◌, ◌≡◌, List, [], ◌∷◌, ◌++◌, arith,
}

abbrev pub IsByte : ℕ → Type 0
IsByte b = b < 256

-- `n.to_bytes(k, "big")`, for `n` below 256 ^ k.
abbrev pub to_bytes : ℕ → ℕ → List ℕ
to_bytes zero n = []
to_bytes (suc k) n = (n / 256 ^ k % 256) ∷ to_bytes k n

abbrev from_bytes_onto : ℕ → List ℕ → ℕ
from_bytes_onto acc [] = acc
from_bytes_onto acc (b ∷ bs) = from_bytes_onto (acc * 256 + b) bs

-- `int.from_bytes(bs, "big")`
abbrev pub from_bytes : List ℕ → ℕ
from_bytes = from_bytes_onto 0

-- `sum(bs)`
abbrev pub sum : List ℕ → ℕ
sum [] = 0
sum (b ∷ bs) = b + sum bs

pub sum-append : (xs ys : List ℕ) → sum (xs ++ ys) ≡ sum xs + sum ys
sum-append [] ys = omega arith
sum-append (x ∷ xs) ys = omega (arith, sum-append xs ys)

-- Two and four bytes are read back as the number that was written, and written as they were read.
pub from_bytes-to_bytes_2 : (n : ℕ) → n < 2 ^ 16 → from_bytes (to_bytes 2 n) ≡ n
from_bytes-to_bytes_2 n h = omega arith

pub from_bytes-to_bytes_4 : (n : ℕ) → n < 2 ^ 32 → from_bytes (to_bytes 4 n) ≡ n
from_bytes-to_bytes_4 n h = omega arith

pub to_bytes-from_bytes_2 :
    (a b : ℕ) → IsByte a → IsByte b → to_bytes 2 (from_bytes (a ∷ b ∷ [])) ≡ a ∷ b ∷ []
to_bytes-from_bytes_2 a b ha hb = ground arith

pub to_bytes-from_bytes_4 :
    (a b c d : ℕ)
    → IsByte a
    → IsByte b
    → IsByte c
    → IsByte d
    → to_bytes 4 (from_bytes (a ∷ b ∷ c ∷ d ∷ [])) ≡ a ∷ b ∷ c ∷ d ∷ []
to_bytes-from_bytes_4 a b c d ha hb hc hd = ground arith
