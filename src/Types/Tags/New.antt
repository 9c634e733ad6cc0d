-- ===== src/Types/Tags/New.antt =====
-- What Tags::new accepts and returns.
use tephra.Prelude.{
  ℕ, ◌+◌, ◌≤◌, ◌≡◌, inl, inr, refl, false, List, [], ◌∷◌, none, some, arith, if◌then◌else◌,
  Option-cases,
}
use tephra.Prelude.Str.{Str, str_lt, str_eq, str_lt_connex, str_lt_asymm, str_eq_iff, str_eq_self}
use tephra.Prelude.Result.{Result, ok, err}
use tephra.Types.Name.{Tag}
use tephra.Types.Tags.{
  Tags, TagsError, duplicate, IsAscending, insert_sorted, sort, first_duplicate, new,
}

-- How often `a` occurs.
abbrev pub count : Str → List Str → ℕ
count a [] = 0
count a (x ∷ xs) = (if str_eq x a then 1 else 0) + count a xs

-- Ascending with repetitions: no string is below the one before it.
abbrev IsNondescending : List Str → Type 0
IsNondescending [] = Unit
IsNondescending (t ∷ []) = Unit
IsNondescending (t ∷ u ∷ us) = (str_lt u t ≡ false) × IsNondescending (u ∷ us)

count-insert_sorted : (a t : Str) (us : List Str) → count a (insert_sorted t us) ≡ count a (t ∷ us)
unfolding insert_sorted
count-insert_sorted a t [] = refl
count-insert_sorted a t (u ∷ us) = ground (arith, count-insert_sorted a t us)

count-sort : (a : Str) (ts : List Str) → count a (sort ts) ≡ count a ts
unfolding sort
count-sort a [] = refl
count-sort a (t ∷ ts) = omega (arith, count-insert_sorted a t (sort ts), count-sort a ts)

insert_sorted-IsNondescending :
    (t : Str) (us : List Str) → IsNondescending us → IsNondescending (insert_sorted t us)
unfolding insert_sorted
insert_sorted-IsNondescending t [] h = tt
insert_sorted-IsNondescending t (u ∷ []) h = ground (arith, str_lt_asymm u t)
insert_sorted-IsNondescending t (u ∷ v ∷ us) h =
    ground (arith, str_lt_asymm u t, insert_sorted-IsNondescending t (v ∷ us) h.1)

sort-IsNondescending : (ts : List Str) → IsNondescending (sort ts)
unfolding sort
sort-IsNondescending [] = tt
sort-IsNondescending (t ∷ ts) = insert_sorted-IsNondescending t (sort ts) (sort-IsNondescending ts)

IsAscending-of_no_duplicate :
    (ts : List Str) → IsNondescending ts → first_duplicate ts ≡ none → IsAscending ts
unfolding first_duplicate
IsAscending-of_no_duplicate [] h e = tt
IsAscending-of_no_duplicate (t ∷ []) h e = tt
IsAscending-of_no_duplicate (t ∷ u ∷ us) h e =
    ground (arith, str_lt_connex t u, IsAscending-of_no_duplicate (u ∷ us))

first_duplicate-count : (ts : List Str) (d : Str) → first_duplicate ts ≡ some d → 2 ≤ count d ts
unfolding first_duplicate
first_duplicate-count [] d e = cc
first_duplicate-count (t ∷ []) d e = cc
first_duplicate-count (t ∷ u ∷ us) d e =
    ground (arith, str_eq_iff u t, str_eq_self d, first_duplicate-count (u ∷ us) d)

-- What is expected of a result for the given tags.
abbrev pub IsTagsResult : List Tag → Result TagsError Tags → Type 0
IsTagsResult ts (ok s) = IsAscending s × ((a : Str) → count a s ≡ count a ts)
IsTagsResult ts (err (duplicate d)) = 2 ≤ count d ts

-- Tags::new, on every input: it returns the tags in strictly ascending order, each as often as it
-- was given, or names a tag that was given twice.
pub new_correct : (ts : List Tag) → IsTagsResult ts (new ts)
unfolding new
new_correct ts = elim (Option-cases (first_duplicate (sort ts))) [
  | inl e ↦
      rw (e, IsTagsResult)
        (IsAscending-of_no_duplicate (sort ts) (sort-IsNondescending ts) e, λ a. count-sort a ts)
  | inr (d, e) ↦
      rw (e, IsTagsResult) (omega (arith, first_duplicate-count (sort ts) d e, count-sort d ts))
]

-- So it accepts every list without repetitions.
new-distinct : (ts : List Tag) → ((a : Str) → count a ts ≤ 1) → (s : Tags) × (new ts ≡ ok s)
new-distinct ts h = go (new ts) refl (new_correct ts)
  where
    go : (r : Result TagsError Tags) → new ts ≡ r → IsTagsResult ts r → (s : Tags) × (new ts ≡ ok s)
    go (ok s) e k = (s, e)
    go (err (duplicate d)) e k = absurd (omega (arith, h d))
