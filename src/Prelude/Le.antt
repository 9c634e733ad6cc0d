-- ===== src/Prelude/Le.antt =====
-- Numbers as little-endian bytes (`to_le_bytes`, `from_le_bytes`), and reads at a place in a buffer.
use Prim.Native.Nat.{ℕ, zero, suc, ◌+◌, ◌-◌, ◌*◌, ◌/◌, ◌%◌, ◌^◌, ◌<◌}
use mathlib.Core.Path.{◌≡◌, refl, ap}
use mathlib.Core.List.{[], ◌∷◌, ◌++◌}
use mathlib.Core.Option.{Option, none, some}
use native.Mathlib.Omega.{arith}
use tephra.Prelude.Tests.{if◌then◌else◌, leb, le→leb}
use tephra.Prelude.Lists.{length, take, drop, length-append, take-append_length}
use tephra.Prelude.Str.{Bytes}

-- The `n` low bytes of `v`, the lowest first.
abbrev pub to_le : ℕ → ℕ → Bytes
to_le zero v = []
to_le (suc n) v = v % 256 ∷ to_le n (v / 256)

abbrev pub of_le : Bytes → ℕ
of_le [] = 0
of_le (b ∷ bs) = b + 256 * of_le bs

pub length-to_le : (n v : ℕ) → length (to_le n v) ≡ n
length-to_le zero v = refl
length-to_le (suc n) v = omega (arith, length-to_le n (v / 256))

pow_suc : (n : ℕ) → 256 ^ suc n ≡ 256 * 256 ^ n
pow_suc n = omega arith

pub of_le-to_le : (n v : ℕ) → v < 256 ^ n → of_le (to_le n v) ≡ v
of_le-to_le zero v h = omega arith
of_le-to_le (suc n) v h = omega (arith, of_le-to_le n (v / 256) (omega (arith, pow_suc n)))

-- buf[from..to]
abbrev pub slice : Bytes → ℕ → ℕ → Bytes
slice buf from to = take (to - from) (drop from buf)

-- FileExt::read_exact_at, and `get(from..to)`: none where the bytes do not reach so far.
unfoldable pub bytes_at : Bytes → ℕ → ℕ → Option Bytes
bytes_at buf from len =
    if leb (from + len) (length buf) then some (take len (drop from buf)) else none

pub drop-behind : (pre rest : Bytes) (n : ℕ) → n ≡ length pre → drop n (pre ++ rest) ≡ rest
drop-behind [] rest zero h = refl
drop-behind [] rest (suc n) h = absurd (omega arith)
drop-behind (x ∷ pre) rest zero h = absurd (omega arith)
drop-behind (x ∷ pre) rest (suc n) h = drop-behind pre rest n (omega arith)

pub take-behind : (ms rest : Bytes) (n : ℕ) → n ≡ length ms → take n (ms ++ rest) ≡ ms
take-behind ms rest n h = rw h (take-append_length ms rest)

-- Reading back what stands behind `pre`.
pub bytes_at-behind :
    (pre ms rest : Bytes) (from len : ℕ)
    → from ≡ length pre
    → len ≡ length ms
    → bytes_at (pre ++ (ms ++ rest)) from len ≡ some ms
unfolding bytes_at
bytes_at-behind pre ms rest from len h k =
    rw
      (
        le→leb (from + len) (length (pre ++ (ms ++ rest)))
            (omega (arith, length-append pre (ms ++ rest), length-append ms rest)),
        drop-behind pre (ms ++ rest) from h,
      )
      (ap some (take-behind ms rest len k))
