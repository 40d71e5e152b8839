-- ===== src/Runtime/Bytes.antt =====
-- Big-endian bytes of machine words, as `to_be_bytes` and `from_be_bytes` of Rust give them.
use catseq.Prelude.{
  ℕ, zero, suc, ◌+◌, ◌*◌, ◌/◌, ◌%◌, ◌^◌, ◌<◌, ◌≡◌, refl, arith, List, [], ◌∷◌, All, length, ap,
}

-- The last `k` bytes of `x`, highest first.
abbrev pub be_bytes : ℕ → ℕ → List ℕ
be_bytes zero x = []
be_bytes (suc k) x = (x / 256 ^ k % 256) ∷ be_bytes k x

abbrev from_be : ℕ → List ℕ → ℕ
from_be acc [] = acc
from_be acc (b ∷ bs) = from_be (acc * 256 + b) bs

abbrev pub of_be_bytes : List ℕ → ℕ
of_be_bytes bs = from_be 0 bs

abbrev pub IsByte : ℕ → Type 0
IsByte b = b < 256

pub length-be_bytes : (k x : ℕ) → length (be_bytes k x) ≡ k
length-be_bytes zero x = refl
length-be_bytes (suc k) x = ap suc (length-be_bytes k x)

pub be_bytes-IsByte : (k x : ℕ) → All IsByte (be_bytes k x)
be_bytes-IsByte zero x = tt
be_bytes-IsByte (suc k) x = (omega arith, be_bytes-IsByte k x)
