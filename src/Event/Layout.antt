-- ===== src/Event/Layout.antt =====
-- Reading back what Event::new lays out: lemmas on positions in a concatenation.
use tephra.Prelude.{
  ℕ, zero, suc, ◌+◌, ◌-◌, ◌*◌, ◌≤◌, ◌≡◌, refl, List, [], ◌∷◌, ◌++◌, length, length-append, get_or,
  drop, take-append_length, arith,
}
use tephra.Prelude.Str.{Bytes}
use tephra.Types.Position.{u16_max}
use tephra.Types.Tags.{Tags}
use tephra.Event.{to_le16, read_u16, slice, tag_lens, tag_bytes, tags_total}

module _ {ℓ} {A : Type ℓ} where
  pub get_or-append :
      (xs ys : List A) (i k : ℕ) (d : A) → i ≡ length xs + k → get_or (xs ++ ys) i d ≡ get_or ys k d
  get_or-append [] ys i k d h = rw h (rw native.Mathlib.Nat.zero-add)
  get_or-append (x ∷ xs) ys zero k d h = absurd (omega arith)
  get_or-append (x ∷ xs) ys (suc i) k d h = get_or-append xs ys i k d (omega arith)

  pub drop-append : (xs ys : List A) (i k : ℕ) → i ≡ length xs + k → drop i (xs ++ ys) ≡ drop k ys
  drop-append [] ys i k h = rw h (rw native.Mathlib.Nat.zero-add)
  drop-append (x ∷ xs) ys zero k h = absurd (omega arith)
  drop-append (x ∷ xs) ys (suc i) k h = drop-append xs ys i k (omega arith)

pub read_u16-append :
    (xs ys : Bytes) (i k : ℕ) → i ≡ length xs + k → read_u16 (xs ++ ys) i ≡ read_u16 ys k
unfolding read_u16
read_u16-append xs ys i k h =
    omega (arith, get_or-append xs ys i k 0 h, get_or-append xs ys (i + 1) (k + 1) 0 (omega arith))

pub read_u16-to_le16 : (n : ℕ) (ys : Bytes) → n ≤ u16_max → read_u16 (to_le16 n ++ ys) 0 ≡ n
unfolding read_u16
read_u16-to_le16 n ys h = omega arith

-- A read of the number that stands behind `xs`.
pub read_u16-at :
    (xs : Bytes) (n : ℕ) (ys : Bytes) (i : ℕ)
    → i ≡ length xs
    → n ≤ u16_max
    → read_u16 (xs ++ (to_le16 n ++ ys)) i ≡ n
read_u16-at xs n ys i h k =
    omega (arith, read_u16-append xs (to_le16 n ++ ys) i 0 (omega arith), read_u16-to_le16 n ys k)

pub slice-append :
    (xs ms ys : Bytes) (a b : ℕ)
    → a ≡ length xs
    → b ≡ a + length ms
    → slice (xs ++ (ms ++ ys)) a b ≡ ms
slice-append xs ms ys a b h k =
    let len : b - a ≡ length ms = omega arith in
    rw (drop-append xs (ms ++ ys) a 0 (omega arith), len) (take-append_length ms ys)

pub length-tag_lens : (ts : Tags) → length (tag_lens ts) ≡ 2 * length ts
unfolding tag_lens
length-tag_lens [] = omega arith
length-tag_lens (t ∷ ts) = omega (arith, length-tag_lens ts)

pub length-tag_bytes : (ts : Tags) → length (tag_bytes ts) ≡ tags_total ts
unfolding tag_bytes tags_total
length-tag_bytes [] = refl
length-tag_bytes (t ∷ ts) = omega (arith, length-tag_bytes ts, length-append t (tag_bytes ts))
