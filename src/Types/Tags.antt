-- ===== src/Types/Tags.antt =====
-- Tags of crates/tephra-types/src/name.rs: a sorted set of tags without duplicates. `sort_unstable`
-- is an insertion sort: `Ord` on tags is total and equal tags are the same bytes, so every sort
-- gives this list.
pub mod Order
pub mod New
use tephra.Prelude.{◌≡◌, true, List, [], ◌∷◌, Option, none, some, if◌then◌else◌}
use tephra.Prelude.Str.{Str, str_lt, str_eq, str_cmp}
use tephra.Prelude.Result.{Result, ok, err}
use tephra.Types.Name.{Tag}

pub data TagsError : Type 0 where
  duplicate : Tag → TagsError

abbrev pub Tags : Type 0
Tags = List Tag

unfoldable pub insert_sorted : Tag → List Tag → List Tag
unfolding str_lt
insert_sorted t [] = t ∷ []
insert_sorted t (u ∷ us) = if str_lt u t then u ∷ insert_sorted t us else t ∷ u ∷ us

-- slice::sort_unstable
unfoldable pub sort : List Tag → List Tag
unfolding insert_sorted
sort [] = []
sort (t ∷ ts) = insert_sorted t (sort ts)

-- The first tag that equals the one before it.
unfoldable pub first_duplicate : List Tag → Option Tag
unfolding str_eq
first_duplicate [] = none
first_duplicate (t ∷ []) = none
first_duplicate (t ∷ u ∷ us) = if str_eq u t then some u else first_duplicate (u ∷ us)

-- Tags::new
unfoldable pub new : List Tag → Result TagsError Tags
unfolding sort first_duplicate
new tags =
    let sorted = sort tags in
    elim (first_duplicate sorted) [ some t ↦ err (duplicate t) | none ↦ ok sorted ]

-- Tags::empty
abbrev pub no_tags : Tags
no_tags = []

-- Strictly ascending, the invariant of a tag set.
abbrev pub IsAscending : List Str → Type 0
IsAscending [] = Unit
IsAscending (t ∷ []) = Unit
IsAscending (t ∷ u ∷ us) = (str_lt t u ≡ true) × IsAscending (u ∷ us)
