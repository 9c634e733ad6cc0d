-- ===== src/Index/Rising.antt =====
-- Lists of local positions: membership, strictly rising lists, and `sort_unstable`, `dedup` and
-- ranges of the standard library on them.
use tephra.Prelude.{
  ℕ, zero, suc, ◌+◌, ◌≤◌, ◌<◌, ◌≡◌, refl, Bool, false, List, [], ◌∷◌, ◌++◌, ◌&&◌, ◌||◌, any, keep,
  ltb, leb, ◌==◌, if◌then◌else◌, arith, Bool-cases, inl, inr,
}

-- slice::contains, and `binary_search(x).is_ok()` on an ascending slice
abbrev pub num_mem : ℕ → List ℕ → Bool
num_mem n xs = any (λ x. x == n) xs

-- Strictly rising, from `low` on.
abbrev pub RisingFrom : ℕ → List ℕ → Type 0
RisingFrom low [] = Unit
RisingFrom low (x ∷ xs) = (low ≤ x) × RisingFrom (suc x) xs

abbrev NonFallingFrom : ℕ → List ℕ → Type 0
NonFallingFrom low [] = Unit
NonFallingFrom low (x ∷ xs) = (low ≤ x) × NonFallingFrom x xs

-- `(start..start + count).collect()`
unfoldable pub range_from : ℕ → ℕ → List ℕ
range_from start zero = []
range_from start (suc count) = start ∷ range_from (suc start) count

unfoldable pub insert_sorted : ℕ → List ℕ → List ℕ
insert_sorted x [] = x ∷ []
insert_sorted x (y ∷ ys) = if ltb y x then y ∷ insert_sorted x ys else x ∷ y ∷ ys

-- slice::sort_unstable
unfoldable pub sort : List ℕ → List ℕ
unfolding insert_sorted
sort [] = []
sort (x ∷ xs) = insert_sorted x (sort xs)

-- Vec::dedup
unfoldable pub dedup : List ℕ → List ℕ
dedup [] = []
dedup (x ∷ []) = x ∷ []
dedup (x ∷ y ∷ ys) = let rest = dedup (y ∷ ys) in if x == y then rest else x ∷ rest

pub num_mem-append :
    (n : ℕ) (xs ys : List ℕ) → num_mem n (xs ++ ys) ≡ (num_mem n xs || num_mem n ys)
num_mem-append n [] ys = refl
num_mem-append n (x ∷ xs) ys = ground (arith, num_mem-append n xs ys)

pub num_mem-keep :
    (p : ℕ → Bool) (n : ℕ) (xs : List ℕ) → num_mem n (keep p xs) ≡ (num_mem n xs && p n)
num_mem-keep p n [] = refl
num_mem-keep p n (x ∷ xs) = elim (Bool-cases (x == n)) [
  | inl e ↦
      let same : x ≡ n = ground arith in
      rw same (ground (arith, num_mem-keep p n xs, Bool-cases (p n)))
  | inr e ↦ ground (arith, e, num_mem-keep p n xs)
]

pub num_mem-range_from :
    (n start count : ℕ)
    → num_mem n (range_from start count) ≡ (leb start n && ltb n (start + count))
unfolding range_from
num_mem-range_from n start zero = ground arith
num_mem-range_from n start (suc count) = ground (arith, num_mem-range_from n (suc start) count)

num_mem-insert_sorted :
    (n x : ℕ) (ys : List ℕ) → num_mem n (insert_sorted x ys) ≡ num_mem n (x ∷ ys)
unfolding insert_sorted
num_mem-insert_sorted n x [] = refl
num_mem-insert_sorted n x (y ∷ ys) = ground (arith, num_mem-insert_sorted n x ys)

num_mem-sort : (n : ℕ) (xs : List ℕ) → num_mem n (sort xs) ≡ num_mem n xs
unfolding sort
num_mem-sort n [] = refl
num_mem-sort n (x ∷ xs) = ground (arith, num_mem-insert_sorted n x (sort xs), num_mem-sort n xs)

num_mem-dedup : (n : ℕ) (xs : List ℕ) → num_mem n (dedup xs) ≡ num_mem n xs
unfolding dedup
num_mem-dedup n [] = refl
num_mem-dedup n (x ∷ []) = refl
num_mem-dedup n (x ∷ y ∷ ys) = ground (arith, num_mem-dedup n (y ∷ ys))

insert_sorted-NonFallingFrom :
    (low x : ℕ) (ys : List ℕ)
    → low ≤ x
    → NonFallingFrom low ys
    → NonFallingFrom low (insert_sorted x ys)
unfolding insert_sorted
insert_sorted-NonFallingFrom low x [] h s = (h, tt)
insert_sorted-NonFallingFrom low x (y ∷ ys) h s = elim (Bool-cases (ltb y x)) [
  | inl e ↦ rw e (s.0, insert_sorted-NonFallingFrom y x ys (ground arith) s.1)
  | inr e ↦ rw e (h, (ground arith, s.1))
]

sort-NonFallingFrom : (xs : List ℕ) → NonFallingFrom 0 (sort xs)
unfolding sort
sort-NonFallingFrom [] = tt
sort-NonFallingFrom (x ∷ xs) =
    insert_sorted-NonFallingFrom 0 x (sort xs) (omega arith) (sort-NonFallingFrom xs)

dedup-RisingFrom : (low : ℕ) (xs : List ℕ) → NonFallingFrom low xs → RisingFrom low (dedup xs)
unfolding dedup
dedup-RisingFrom low [] s = tt
dedup-RisingFrom low (x ∷ []) s = (s.0, tt)
dedup-RisingFrom low (x ∷ y ∷ ys) s = elim (Bool-cases (x == y)) [
  | inl e ↦ rw e (dedup-RisingFrom low (y ∷ ys) (omega arith, s.1.1))
  | inr e ↦ rw e (s.0, dedup-RisingFrom (suc x) (y ∷ ys) (ground arith, s.1.1))
]

-- Sorting and deduplicating gives the strictly rising list of the same numbers.
pub num_mem-dedup-sort : (n : ℕ) (xs : List ℕ) → num_mem n (dedup (sort xs)) ≡ num_mem n xs
num_mem-dedup-sort n xs = ground (arith, num_mem-dedup n (sort xs), num_mem-sort n xs)

pub dedup-sort-RisingFrom : (xs : List ℕ) → RisingFrom 0 (dedup (sort xs))
dedup-sort-RisingFrom xs = dedup-RisingFrom 0 (sort xs) (sort-NonFallingFrom xs)

pub range_from-RisingFrom : (start count : ℕ) → RisingFrom start (range_from start count)
unfolding range_from
range_from-RisingFrom start zero = tt
range_from-RisingFrom start (suc count) = (omega arith, range_from-RisingFrom (suc start) count)

pub RisingFrom-weaken :
    (low low' : ℕ) (xs : List ℕ) → low ≤ low' → RisingFrom low' xs → RisingFrom low xs
RisingFrom-weaken low low' [] h r = tt
RisingFrom-weaken low low' (x ∷ xs) h r = (omega arith, r.1)

pub keep-RisingFrom :
    (p : ℕ → Bool) (low : ℕ) (xs : List ℕ) → RisingFrom low xs → RisingFrom low (keep p xs)
keep-RisingFrom p low [] r = tt
keep-RisingFrom p low (x ∷ xs) r = elim (Bool-cases (p x)) [
  | inl e ↦ rw e (r.0, keep-RisingFrom p (suc x) xs r.1)
  | inr e ↦
      rw e
        (RisingFrom-weaken low (suc x) (keep p xs) (omega arith) (keep-RisingFrom p (suc x) xs r.1))
]

pub num_mem-below : (n low : ℕ) (xs : List ℕ) → RisingFrom low xs → n < low → num_mem n xs ≡ false
num_mem-below n low [] r h = refl
num_mem-below n low (x ∷ xs) r h = ground (arith, num_mem-below n (suc x) xs r.1)

-- Two strictly rising lists with the same numbers are equal.
pub rising_unique :
    (low : ℕ) (xs ys : List ℕ)
    → RisingFrom low xs
    → RisingFrom low ys
    → ((n : ℕ) → num_mem n xs ≡ num_mem n ys)
    → xs ≡ ys
rising_unique low [] [] r s h = refl
rising_unique low [] (y ∷ ys) r s h = absurd (ground (arith, h y))
rising_unique low (x ∷ xs) [] r s h = absurd (ground (arith, h x))
rising_unique low (x ∷ xs) (y ∷ ys) r s h =
    let same : x ≡ y =
      ground (arith, h x, h y, num_mem-below x (suc y) ys s.1, num_mem-below y (suc x) xs r.1) in
    let rest =
      rising_unique (suc x) xs ys r.1 (rw same s.1) (λ n.
        ground (arith, h n, num_mem-below n (suc y) ys s.1, num_mem-below n (suc x) xs r.1)) in
    ground (arith, same, rest)
