-- ===== src/Index/Plan/Shortest.antt =====
-- Lengths of what crates/tephra/src/index/search.rs sorts, deduplicates and intersects.
use tephra.Prelude.{ℕ, suc, ◌≤◌, ◌≡◌, refl, Bool, List, [], ◌∷◌, keep, length, all, min, arith}
use tephra.Index.Rising.{num_mem, insert_sorted, sort, dedup}
use tephra.Index.Search.{insert_by_len, sort_by_len, filter_by, intersect}

pub length-keep : {A : Type 0} (p : A → Bool) (xs : List A) → length (keep p xs) ≤ length xs
length-keep p [] = omega arith
length-keep p (x ∷ xs) = ground (arith, length-keep p xs)

length-insert_sorted : (x : ℕ) (ys : List ℕ) → length (insert_sorted x ys) ≡ suc (length ys)
unfolding insert_sorted
length-insert_sorted x [] = refl
length-insert_sorted x (y ∷ ys) = ground (arith, length-insert_sorted x ys)

pub length-sort : (xs : List ℕ) → length (sort xs) ≡ length xs
unfolding sort
length-sort [] = refl
length-sort (x ∷ xs) = omega (arith, length-insert_sorted x (sort xs), length-sort xs)

pub length-dedup : (xs : List ℕ) → length (dedup xs) ≤ length xs
unfolding dedup
length-dedup [] = omega arith
length-dedup (x ∷ []) = omega arith
length-dedup (x ∷ y ∷ ys) = ground (arith, length-dedup (y ∷ ys))

-- The length of the first list, or `d`.
abbrev head_len : ℕ → List (List ℕ) → ℕ
head_len d [] = d
head_len d (l ∷ ls) = length l

-- The first list after an insertion is the shorter one.
head_len-insert_by_len :
    (d : ℕ) (l : List ℕ) (ms : List (List ℕ))
    → (head_len d (insert_by_len l ms) ≤ length l)
      × (head_len d (insert_by_len l ms) ≤ head_len (length l) ms)
unfolding insert_by_len
head_len-insert_by_len d l [] = (omega arith, omega arith)
head_len-insert_by_len d l (m ∷ ms) = (ground arith, ground arith)

-- The least of the lengths and `acc`, as the loop over the tags finds it.
abbrev pub least : ℕ → List (List ℕ) → ℕ
least acc [] = acc
least acc (l ∷ ls) = least (min acc (length l)) ls

pub least_mono : (a b : ℕ) (ls : List (List ℕ)) → a ≤ b → least a ls ≤ least b ls
least_mono a b [] h = h
least_mono a b (l ∷ ls) h = least_mono (min a (length l)) (min b (length l)) ls (omega arith)

head_len_weaken :
    (a b n : ℕ) (ms : List (List ℕ)) → n ≤ a → n ≤ b → n ≤ head_len a ms → n ≤ head_len b ms
head_len_weaken a b n [] h k m = k
head_len_weaken a b n (l ∷ ms) h k m = m

head_len-least :
    (acc n : ℕ) (ls : List (List ℕ))
    → n ≤ acc
    → n ≤ head_len acc (sort_by_len ls)
    → n ≤ least acc ls
unfolding sort_by_len
head_len-least acc n [] h k = h
head_len-least acc n (l ∷ ls) h k =
    let (a, b) = head_len-insert_by_len acc l (sort_by_len ls) in
    head_len-least (min acc (length l)) n ls (omega arith) (
      head_len_weaken (length l) (min acc (length l)) n (sort_by_len ls) (omega arith) (omega arith)
        (omega arith))

length-filter_by : (d : ℕ) (ls : List (List ℕ)) → length (filter_by ls) ≤ head_len d ls
length-filter_by d [] = omega arith
length-filter_by d (l ∷ ls) = length-keep (λ x. all (num_mem x) ls) l

pub length-intersect :
    (acc : ℕ) (ls : List (List ℕ)) → min acc (length (intersect ls)) ≤ least acc ls
unfolding intersect
length-intersect acc ls =
    head_len-least acc (min acc (length (filter_by (sort_by_len ls)))) ls (omega arith) (
      head_len_weaken (length (filter_by (sort_by_len ls))) acc
        (min acc (length (filter_by (sort_by_len ls)))) (sort_by_len ls) (omega arith) (omega arith)
        (omega (arith, length-filter_by (length (filter_by (sort_by_len ls))) (sort_by_len ls))))
