-- ===== src/Index/Plan/Bound.antt =====
-- The estimates of crates/tephra/src/index/plan.rs are upper bounds of what the evaluator finds.
use tephra.Prelude.{
  ℕ, suc, ◌⊎◌, ◌+◌, ◌-◌, ◌≤◌, ◌≡◌, refl, ap, Bool, List, [], ◌∷◌, Option, none, some, leb, ltb,
  keep, length, length-append, is_empty, min, max, ◌&&◌, arith, Bool-cases, inl, inr,
}
use tephra.Prelude.Str.{Str}
use tephra.Types.Position.{Position, u64_max, saturating_add}
use tephra.Types.Tags.{Tags}
use tephra.Types.Query.{QueryItem, Query}
use tephra.Event.{EventRef}
use tephra.Matching.Merge.{IsWellFormed}
use tephra.Index.Rising.{sort}
use tephra.Index.Interface.{SegmentIndex, Indexes}
use tephra.Index.Search.{
  intersect, collect_postings, known_ids, type_kept, tag_locals, item_locals, items_locals,
  local_matches,
}
use tephra.Index.Search.Locals.{AscendingEvents}
use tephra.Index.Search.Oracle.{scan_from, local_matches-eq-scan}
use tephra.Index.Plan.{smallest_len, estimate_item, estimate_items, estimate_matches}
use tephra.Index.Plan.Shortest.{
  length-keep, length-sort, length-dedup, least, least_mono, length-intersect,
}

-- What `term_len` promises of `term_postings`: an upper bound, and none for none.
abbrev pub Counts : Option ℕ → Option (List ℕ) → Type 0
Counts none none = Unit
Counts none (some ps) = ⊥
Counts (some n) none = ⊥
Counts (some n) (some ps) = length ps ≤ n

module _ (idx : SegmentIndex)
    (counts : (tag : Str) → Counts (idx.term_len tag) (idx.term_postings tag)) where
  term-cases :
      (tag : Str)
      → ((idx.term_len tag ≡ none) × (idx.term_postings tag ≡ none))
        ⊎ ((n : ℕ) × (ps : List ℕ) × (idx.term_len tag ≡ some n)
            × (idx.term_postings tag ≡ some ps)
            × (length ps ≤ n))
  term-cases tag = cases (idx.term_len tag) (idx.term_postings tag) refl refl (counts tag)
    where
      cases :
          (o : Option ℕ) (p : Option (List ℕ))
          → idx.term_len tag ≡ o
          → idx.term_postings tag ≡ p
          → Counts o p
          → ((idx.term_len tag ≡ none) × (idx.term_postings tag ≡ none))
            ⊎ ((n : ℕ) × (ps : List ℕ) × (idx.term_len tag ≡ some n)
                × (idx.term_postings tag ≡ some ps)
                × (length ps ≤ n))
      cases none none h k c = inl (h, k)
      cases none (some ps) h k c = absurd c
      cases (some n) none h k c = absurd c
      cases (some n) (some ps) h k c = inr (n, ps, h, k, c)

  -- The loop over the tags stops where the postings are none, and else bounds the least length.
  smallest_len-least :
      (ts : Tags) (acc : ℕ)
      → ((smallest_len idx ts acc ≡ none) × (collect_postings idx ts ≡ none))
        ⊎ ((s : ℕ) × (ls : List (List ℕ)) × (smallest_len idx ts acc ≡ some s)
            × (collect_postings idx ts ≡ some ls)
            × (least acc ls ≤ s))
  unfolding smallest_len collect_postings
  smallest_len-least [] acc = inr (acc, [], refl, refl, omega arith)
  smallest_len-least (t ∷ ts) acc = elim (term-cases t) [
    | inl (h, k) ↦ inl (rw (smallest_len, h) refl, rw (collect_postings, k) refl)
    | inr (n, ps, h, k, c) ↦ elim (smallest_len-least ts (min acc n)) [
      | inl (a, b) ↦ inl (rw (smallest_len, h) a, rw (collect_postings, k, b) refl)
      | inr (s, ls, a, b, l) ↦ inr (
        s,
        ps ∷ ls,
        rw (smallest_len, h) a,
        rw (collect_postings, k, b) refl,
        omega (arith, l, least_mono (min acc (length ps)) (min acc n) ls (omega arith)),
      )
    ]
  ]

  length-tag_locals :
      (t : Str) (ts : Tags) (ids : Option (List ℕ)) (width : ℕ)
      → width ≤ u64_max
      → min width (length (tag_locals idx (t ∷ ts) ids))
        ≤ elim (smallest_len idx (t ∷ ts) u64_max) [ none ↦ 0 | some s ↦ min s width ]
  unfolding tag_locals
  length-tag_locals t ts ids width h = elim (smallest_len-least (t ∷ ts) u64_max) [
    | inl (a, b) ↦ rw (a, b) (omega arith)
    | inr (s, ls, a, b, l) ↦
        rw (a, b)
          (omega (
            arith,
            l,
            h,
            length-intersect u64_max ls,
            length-keep (type_kept idx ids) (intersect ls),
          ))
  ]

  length-item_locals :
      (item : QueryItem) (width : ℕ)
      → width ≤ u64_max
      → min width (length (item_locals idx item)) ≤ estimate_item idx item width
  unfolding item_locals estimate_item
  length-item_locals item width h = by_tags item.tags refl
    where
      some_ids :
          (t : Str) (ts : Tags)
          → item.tags ≡ t ∷ ts
          → min width (length (item_locals idx item)) ≤ estimate_item idx item width
      some_ids t ts e = elim (Bool-cases (is_empty item.types)) [
        | inl none_listed ↦ rw (e, none_listed) (length-tag_locals t ts none width h)
        | inr listed ↦ elim (Bool-cases (is_empty (known_ids idx item.types))) [
          | inl unknown ↦ rw (listed, unknown) (omega arith)
          | inr known ↦
              rw (e, listed, known)
                (length-tag_locals t ts (some (known_ids idx item.types)) width h)
        ]
      ]

      by_tags :
          (ts : Tags)
          → item.tags ≡ ts
          → min width (length (item_locals idx item)) ≤ estimate_item idx item width
      by_tags [] e = rw e (omega arith)
      by_tags (t ∷ ts) e = some_ids t ts e

  length-items_locals :
      (items : List QueryItem) (width total : ℕ)
      → width ≤ u64_max
      → min width (total + length (items_locals idx items)) ≤ estimate_items idx items width total
  unfolding items_locals estimate_items saturating_add
  length-items_locals [] width total h = omega arith
  length-items_locals (item ∷ items) width total h =
      let sum = saturating_add total (estimate_item idx item width) in
      let here = length-item_locals item width h in
      let both = length-append (item_locals idx item) (items_locals idx items) in
      elim (Bool-cases (leb width sum)) [
        | inl full ↦ rw full (omega arith)
        | inr room ↦ rw room (ground (arith, here, both, length-items_locals items width sum h))
      ]

  length-local_matches :
      (q : Query) (width : ℕ)
      → width ≤ u64_max
      → min width (length (local_matches idx q)) ≤ estimate_matches idx q width
  unfolding local_matches estimate_matches
  length-local_matches Query.all width h = omega arith
  length-local_matches (Query.items items) width h =
      let found = items_locals idx items in
      omega
        (arith, length-dedup (sort found), length-sort found, length-items_locals items width 0 h)

-- The positions of `(after, upto]`.
abbrev pub within : Position → Position → Position → Bool
within after upto p = ltb after p && leb p upto

-- A scan finds no more than one event for each position of the window that it walks.
pub length-scan_window :
    (q : Query) (after upto at : Position) (es : List EventRef)
    → length (keep (within after upto) (scan_from q at es))
      ≤ min (upto + 1) (at + length es) - max (after + 1) at
unfolding scan_from
length-scan_window q after upto at [] = omega arith
length-scan_window q after upto at (e ∷ es) =
    let rest = length-scan_window q after upto (suc at) es in ground (arith, rest)

length-scan_at :
    (q : Query) (at to : Position) (es : List EventRef)
    → length (scan_from q at es) ≡ length (scan_from q to es)
unfolding scan_from
length-scan_at q at to [] = refl
length-scan_at q at to (e ∷ es) = ground (arith, length-scan_at q (suc at) (suc to) es)

-- For a segment index of given events with ascending tags whose `term_len` is an upper bound, a
-- well-formed query and a width within a u64 that covers the positions of the window in the
-- segment, the estimate is at least the number of events that match in the window.
pub estimate_matches-bound :
    (idx : SegmentIndex) (es : List EventRef) (q : Query) (after upto : Position) (width : ℕ)
    → Indexes idx es
    → ((tag : Str) → Counts (idx.term_len tag) (idx.term_postings tag))
    → IsWellFormed q
    → AscendingEvents es
    → width ≤ u64_max
    → min (upto + 1) (idx.base + length es) - max (after + 1) idx.base ≤ width
    → length (keep (within after upto) (scan_from q idx.base es)) ≤ estimate_matches idx q width
estimate_matches-bound idx es q after upto width ok counts wf asc h covers =
    let found = scan_from q 0 es in
    let same : length (local_matches idx q) ≡ length found =
      ap length (local_matches-eq-scan idx es q ok wf asc) in
    omega (
      arith,
      same,
      length-local_matches idx counts q width h,
      length-keep (within after upto) (scan_from q idx.base es),
      length-scan_window q after upto idx.base es,
      length-scan_at q 0 idx.base es,
    )
