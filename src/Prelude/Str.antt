-- ===== src/Prelude/Str.antt =====
-- Rust's `str` as the list of its bytes, with the comparison of `Ord for str` (lexicographic on
-- bytes).
use Prim.Native.Nat.{ℕ, compare, Ordering}
use mathlib.Core.Path.{◌≡◌, refl}
use mathlib.Core.Logic.{◌↔◌, ◌⊎◌, inl, inr}
use mathlib.Core.Bool.{Bool, true, false}
use mathlib.Core.List.{List, [], ◌∷◌}
use native.Mathlib.Omega.{arith}
use tephra.Prelude.Tests.{Bool-ext}
use tephra.Prelude.Lists.{any}

abbrev pub Str : Type 0
Str = List ℕ

abbrev pub Bytes : Type 0
Bytes = List ℕ

unfoldable pub str_cmp : Str → Str → Ordering
str_cmp [] [] = Ordering.eq
str_cmp [] (y ∷ ys) = Ordering.lt
str_cmp (x ∷ xs) [] = Ordering.gt
str_cmp (x ∷ xs) (y ∷ ys) = elim (compare x y) [
  | Ordering.lt ↦ Ordering.lt
  | Ordering.gt ↦ Ordering.gt
  | Ordering.eq ↦ str_cmp xs ys
]

unfoldable pub str_eq : Str → Str → Bool
unfolding str_cmp
str_eq a b = elim (str_cmp a b) [ Ordering.eq ↦ true | _ ↦ false ]

unfoldable pub str_lt : Str → Str → Bool
unfolding str_cmp
str_lt a b = elim (str_cmp a b) [ Ordering.lt ↦ true | _ ↦ false ]

pub str_cmp_self : (a : Str) → str_cmp a a ≡ Ordering.eq
unfolding str_cmp
str_cmp_self [] = refl
str_cmp_self (x ∷ xs) = ground (arith, str_cmp_self xs)

eq_of_str_cmp : (a b : Str) → str_cmp a b ≡ Ordering.eq → a ≡ b
unfolding str_cmp
eq_of_str_cmp [] [] h = refl
eq_of_str_cmp [] (y ∷ ys) h = cc
eq_of_str_cmp (x ∷ xs) [] h = cc
eq_of_str_cmp (x ∷ xs) (y ∷ ys) h = ground (arith, eq_of_str_cmp xs ys)

str_cmp_flip : (a b : Str) → str_cmp a b ≡ Ordering.lt → str_cmp b a ≡ Ordering.gt
unfolding str_cmp
str_cmp_flip [] [] h = cc
str_cmp_flip [] (y ∷ ys) h = refl
str_cmp_flip (x ∷ xs) [] h = cc
str_cmp_flip (x ∷ xs) (y ∷ ys) h = ground (arith, str_cmp_flip xs ys)

str_cmp_trans :
    (a b c : Str)
    → str_cmp a b ≡ Ordering.lt
    → str_cmp b c ≡ Ordering.lt
    → str_cmp a c ≡ Ordering.lt
unfolding str_cmp
str_cmp_trans [] [] c h k = cc
str_cmp_trans [] (y ∷ ys) [] h k = cc
str_cmp_trans [] (y ∷ ys) (z ∷ zs) h k = refl
str_cmp_trans (x ∷ xs) [] c h k = cc
str_cmp_trans (x ∷ xs) (y ∷ ys) [] h k = cc
str_cmp_trans (x ∷ xs) (y ∷ ys) (z ∷ zs) h k = ground (arith, str_cmp_trans xs ys zs)

-- The equality test decides equality.
pub str_eq_iff : (a b : Str) → (str_eq a b ≡ true) ↔ (a ≡ b)
unfolding str_eq
str_eq_iff a b = (
  λ h. eq_of_str_cmp a b (ground arith),
  λ e. let s : str_cmp a b ≡ Ordering.eq = rw e (str_cmp_self b) in ground arith,
)

pub str_eq_self : (a : Str) → str_eq a a ≡ true
str_eq_self a = (str_eq_iff a a).1 refl

pub str_eq_comm : (a b : Str) → str_eq a b ≡ str_eq b a
str_eq_comm a b =
    Bool-ext (str_eq a b) (str_eq b a) (λ h. rw ((str_eq_iff a b).0 h) (str_eq_self b))
      (λ h. rw ((str_eq_iff b a).0 h) (str_eq_self a))

-- The order is strict and transitive, and what it does not order is equal or ordered the other way.
pub str_lt_trans : (a b c : Str) → str_lt a b ≡ true → str_lt b c ≡ true → str_lt a c ≡ true
unfolding str_lt
str_lt_trans a b c h k = ground (arith, str_cmp_trans a b c)

pub str_lt_irrefl : (a : Str) → str_lt a a ≡ false
unfolding str_lt
str_lt_irrefl a = ground (arith, str_cmp_self a)

pub str_lt_asymm : (a b : Str) → str_lt a b ≡ true → str_lt b a ≡ false
unfolding str_lt
str_lt_asymm a b h = ground (arith, str_cmp_flip a b)

pub str_lt→ne : (a b : Str) → str_lt a b ≡ true → str_eq a b ≡ false
unfolding str_lt str_eq
str_lt→ne a b h = ground arith

-- Whether a list of strings holds `a` (`contains`).
abbrev pub mem : Str → List Str → Bool
mem a xs = any (λ x. str_eq x a) xs

str_cmp_flip_gt : (a b : Str) → str_cmp a b ≡ Ordering.gt → str_cmp b a ≡ Ordering.lt
unfolding str_cmp
str_cmp_flip_gt [] [] h = cc
str_cmp_flip_gt [] (y ∷ ys) h = cc
str_cmp_flip_gt (x ∷ xs) [] h = refl
str_cmp_flip_gt (x ∷ xs) (y ∷ ys) h = ground (arith, str_cmp_flip_gt xs ys)

pub str_lt_connex : (a b : Str) → str_lt b a ≡ false → str_eq b a ≡ false → str_lt a b ≡ true
unfolding str_lt str_eq
str_lt_connex a b h k = ground (arith, str_cmp_flip_gt b a)

Ordering-cases : (o : Ordering) → (o ≡ Ordering.lt) ⊎ ((o ≡ Ordering.eq) ⊎ (o ≡ Ordering.gt))
Ordering-cases Ordering.lt = inl refl
Ordering-cases Ordering.eq = inr (inl refl)
Ordering-cases Ordering.gt = inr (inr refl)

-- The three outcomes of the comparison, as tests.
pub data Compared (a b : Str) : Type 0 where
  below : str_cmp a b ≡ Ordering.lt → str_lt a b ≡ true → str_eq a b ≡ false → Compared a b
  same : str_cmp a b ≡ Ordering.eq → a ≡ b → str_eq a b ≡ true → Compared a b
  above : str_cmp a b ≡ Ordering.gt → str_lt b a ≡ true → str_eq a b ≡ false → Compared a b

pub compared : (a b : Str) → Compared a b
unfolding str_lt str_eq
compared a b = elim (Ordering-cases (str_cmp a b)) [
  | inl e ↦ below e (ground arith) (ground arith)
  | inr (inl e) ↦ same e (eq_of_str_cmp a b e) (ground arith)
  | inr (inr e) ↦ above e (ground (arith, str_cmp_flip_gt a b)) (ground arith)
]
