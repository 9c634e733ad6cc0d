-- ===== src/Index/Interner.antt =====
-- The two interners of crates/tephra/src/index/tail.rs: maps from strings to dense ids.
use tephra.Prelude.{ℕ, suc, ◌<◌, ◌≡◌, false, List, [], ◌∷◌, some, arith}
use tephra.Prelude.Str.{Str, str_eq, str_eq_iff, str_eq_self}
use tephra.Tips.MaxMap.{lookup}

abbrev pub Interner : Type 0
Interner = List (Str × ℕ)

-- Ids are below `size`, and no two strings share one.
pub record IsInterner (m : Interner) (size : ℕ) : Type 0 where
  pub dense : (k : Str) (i : ℕ) → lookup k m ≡ some i → i < size
  pub injective : (a b : Str) (i : ℕ) → lookup a m ≡ some i → lookup b m ≡ some i → a ≡ b

pub lookup-cons_self : (k : Str) (i : ℕ) (m : Interner) → lookup k ((k, i) ∷ m) ≡ some i
unfolding lookup
lookup-cons_self k i m = ground (arith, str_eq_self k)

pub lookup-cons_ne :
    (k j : Str) (i : ℕ) (m : Interner) → str_eq k j ≡ false → lookup j ((k, i) ∷ m) ≡ lookup j m
unfolding lookup
lookup-cons_ne k j i m h = ground (arith, h)

pub IsInterner-empty : IsInterner [] 0
unfolding lookup
IsInterner-empty = record { dense = λ k i h. cc h; injective = λ a b i h k. cc h }

-- A new string takes the next id.
pub IsInterner-cons :
    (m : Interner) (size : ℕ) (k : Str) → IsInterner m size → IsInterner ((k, size) ∷ m) (suc size)
unfolding lookup
IsInterner-cons m size k v = record {
  dense = λ j i h. ground (arith, v.dense j i, str_eq_iff k j);
  injective = λ a b i h l.
      ground (arith, str_eq_iff k a, str_eq_iff k b, v.dense a i, v.dense b i, v.injective a b i);
}
