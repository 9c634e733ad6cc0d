-- ===== src/Index/Search.antt =====
-- crates/tephra/src/index/search.rs: the index-driven evaluator.
pub mod Postings
pub mod Locals
pub mod Oracle
use tephra.Prelude.{
  ℕ, zero, suc, ◌+◌, ◌≡◌, Bool, true, false, List, [], ◌∷◌, ◌++◌, Option, none, some, all, any,
  is_empty, keep, ltb, leb, length, if◌then◌else◌, map,
}
use mathlib.Core.List.{reverse}
use tephra.Prelude.Str.{Str}
use tephra.Types.Position.{Position, add}
use tephra.Types.Name.{EventType}
use tephra.Types.Tags.{Tags}
use tephra.Types.Query.{QueryItem, Query}
use tephra.Index.Rising.{num_mem, range_from, sort, dedup}
use tephra.Index.Interface.{SegmentIndex}

-- `sort_by_key(|list| list.len())`, stable
unfoldable pub insert_by_len : List ℕ → List (List ℕ) → List (List ℕ)
insert_by_len l [] = l ∷ []
insert_by_len l (m ∷ ms) = if ltb (length m) (length l) then m ∷ insert_by_len l ms else l ∷ m ∷ ms

unfoldable pub sort_by_len : List (List ℕ) → List (List ℕ)
unfolding insert_by_len
sort_by_len [] = []
sort_by_len (l ∷ ls) = insert_by_len l (sort_by_len ls)

-- The shortest list, filtered by the others. The code panics on no lists, and never passes none.
abbrev pub filter_by : List (List ℕ) → List ℕ
filter_by [] = []
filter_by (shortest ∷ rest) = keep (λ x. all (num_mem x) rest) shortest

-- intersect
unfoldable pub intersect : List (List ℕ) → List ℕ
unfolding sort_by_len
intersect lists = filter_by (sort_by_len lists)

-- The posting lists of every required tag, or `none` at the first tag without one.
unfoldable pub collect_postings : SegmentIndex → Tags → Option (List (List ℕ))
collect_postings idx [] = some []
collect_postings idx (tag ∷ ts) = elim (idx.term_postings tag) [
  | none ↦ none
  | some list ↦ elim (collect_postings idx ts) [ none ↦ none | some lists ↦ some (list ∷ lists) ]
]

-- The known ids of the listed types.
unfoldable pub known_ids : SegmentIndex → List EventType → List ℕ
known_ids idx [] = []
known_ids idx (t ∷ ts) =
    let rest = known_ids idx ts in elim (idx.type_id t) [ none ↦ rest | some id ↦ id ∷ rest ]

-- The closure `keep`: no type filter, or the event's type id is one of these.
abbrev pub type_kept : SegmentIndex → Option (List ℕ) → ℕ → Bool
type_kept idx none local = true
type_kept idx (some ids) local = num_mem (idx.type_at local) ids

-- item_locals, below the type filter
unfoldable pub tag_locals : SegmentIndex → Tags → Option (List ℕ) → List ℕ
unfolding intersect collect_postings range_from
tag_locals idx ts type_ids =
    if is_empty ts
    then keep (type_kept idx type_ids) (range_from 0 idx.len)
    else elim (collect_postings idx ts) [
      | none ↦ []
      | some lists ↦ keep (type_kept idx type_ids) (intersect lists)
    ]

-- item_locals
unfoldable pub item_locals : SegmentIndex → QueryItem → List ℕ
unfolding known_ids tag_locals
item_locals idx item =
    let ids = known_ids idx item.types in
    if is_empty item.types
    then tag_locals idx item.tags none
    else if is_empty ids
    then []
    else tag_locals idx item.tags (some ids)

-- The loop of `local_matches` over a query's items.
unfoldable pub items_locals : SegmentIndex → List QueryItem → List ℕ
unfolding item_locals
items_locals idx [] = []
items_locals idx (item ∷ items) = item_locals idx item ++ items_locals idx items

-- local_matches
unfoldable pub local_matches : SegmentIndex → Query → List ℕ
unfolding items_locals range_from sort dedup
local_matches idx Query.all = range_from 0 idx.len
local_matches idx (Query.items items) = dedup (sort (items_locals idx items))

-- search: the global positions after `after`, ascending
unfoldable pub search_after : SegmentIndex → Query → Position → List Position
unfolding local_matches add
search_after idx q after =
    keep (λ global. ltb after global) (map (add idx.base) (local_matches idx q))

-- search_back: those before `before`, descending
unfoldable pub search_back : SegmentIndex → Query → Position → List Position
unfolding local_matches add
search_back idx q before =
    keep (λ global. ltb global before) (map (add idx.base) (reverse (local_matches idx q)))
