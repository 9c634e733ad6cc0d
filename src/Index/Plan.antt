-- ===== src/Index/Plan.antt =====
-- crates/tephra/src/index/plan.rs: the cost model that picks between the index and a scan. The trace
-- output is left out, and a u64 is a number below 2 ^ 64.
pub mod Shortest
pub mod Bound
pub mod View
use tephra.Prelude.{ℕ, ◌*◌, List, [], ◌∷◌, Option, none, some, if◌then◌else◌, leb, is_empty, min}
use tephra.Types.Position.{u64_max, saturating_add}
use tephra.Types.Tags.{Tags}
use tephra.Types.Query.{QueryItem, Query}
use tephra.Index.Interface.{SegmentIndex}

-- Access
pub data Access : Type 0 where
  index scan : Access

abbrev pub saturating_mul : ℕ → ℕ → ℕ
saturating_mul a b = min (a * b) u64_max

-- The loop of estimate_item: the least posting length so far, or `none` at a tag without postings.
unfoldable pub smallest_len : SegmentIndex → Tags → ℕ → Option ℕ
smallest_len idx [] smallest = some smallest
smallest_len idx (tag ∷ ts) smallest = elim (idx.term_len tag) [
  | none ↦ none
  | some len ↦ smallest_len idx ts (min smallest len)
]

-- estimate_item
unfoldable pub estimate_item : SegmentIndex → QueryItem → ℕ → ℕ
unfolding smallest_len
estimate_item idx item width =
    if is_empty item.tags
    then width
    else elim (smallest_len idx item.tags u64_max) [ none ↦ 0 | some smallest ↦ min smallest width ]

-- The loop of estimate_matches over the items.
unfoldable pub estimate_items : SegmentIndex → List QueryItem → ℕ → ℕ → ℕ
unfolding estimate_item
estimate_items idx [] width total = min total width
estimate_items idx (item ∷ items) width total =
    let total' = saturating_add total (estimate_item idx item width) in
    let rest = estimate_items idx items width total' in if leb width total' then width else rest

-- estimate_matches
unfoldable pub estimate_matches : SegmentIndex → Query → ℕ → ℕ
unfolding estimate_items
estimate_matches idx Query.all width = width
estimate_matches idx (Query.items items) width = estimate_items idx items width 0

-- choose
unfoldable pub choose : ℕ → ℕ → ℕ → Access
choose estimate width scan_bias =
    if leb (saturating_mul estimate scan_bias) width then index else scan
