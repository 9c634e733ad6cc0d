-- ===== src/Index/Search/Locals.antt =====
-- `local_matches` of crates/tephra/src/index/search.rs finds the local positions of the events that
-- match, for any index that keeps the contract.
use tephra.Prelude.{
  ℕ, zero, suc, ◌≤◌, ◌<◌, ◌≡◌, refl, sym, ap, subst, ◌∙◌, true, false, List, [], ◌∷◌, ◌&&◌, ◌||◌,
  Option, none, some, all, any, length, get_elem?, All, arith, Bool-cases, Option-cases, inl, inr,
}
use tephra.Prelude.Str.{Str, str_eq, mem}
use tephra.Types.Name.{EventType}
use tephra.Types.Tags.{Tags, IsAscending}
use tephra.Types.Query.{QueryItem, Query}
use tephra.Event.{EventRef, event_type, tags}
use tephra.Matching.{item_matches, matches}
use tephra.Matching.Merge.{all_in, item_holds, IsWellFormed, item_matches-eq-item_holds}
use tephra.Index.Rising.{
  num_mem, RisingFrom, range_from, num_mem-append, num_mem-keep, num_mem-range_from,
  num_mem-dedup-sort, dedup-sort-RisingFrom, range_from-RisingFrom,
}
use tephra.Index.Interface.{SegmentIndex, Indexes, IsType, tag_at, type_is}
use tephra.Index.Search.{
  intersect, collect_postings, known_ids, type_kept, tag_locals, item_locals, items_locals,
  local_matches,
}
use tephra.Index.Search.Postings.{
  event_at, num_mem-intersect, IsPostings-some, IsPostings-none, collect_postings-past,
  collect_postings-cons, get_elem?-some-lt, get_elem?-none-le,
}

module _ (idx : SegmentIndex) (es : List EventRef) (ok : Indexes idx es) (n : ℕ) (e : EventRef)
    (here : get_elem? es n ≡ some e) where
  tag_here : (t : Str) → tag_at t es n ≡ mem t (tags e)
  tag_here t =
      ap (λ (o : Option EventRef). elim o [ none ↦ false | some e' ↦ mem t (tags e') ]) here

  collect_postings-some :
      (ts : Tags) (lists : List (List ℕ))
      → collect_postings idx ts ≡ some lists
      → all (num_mem n) lists ≡ all_in ts (tags e)
  unfolding collect_postings
  collect_postings-some [] lists h = ground (arith, h)
  collect_postings-some (t ∷ ts) [] h = absurd (ground (arith, h))
  collect_postings-some (t ∷ ts) (l ∷ ls) h =
      let first : idx.term_postings t ≡ some l = ground (arith, h) in
      let rest : collect_postings idx ts ≡ some ls = ground (arith, h) in
      rw (
        IsPostings-some (idx.term_postings t) l t es n first (ok.terms t),
        tag_here t,
        collect_postings-some ts ls rest,
      )

  collect_postings-none : (ts : Tags) → collect_postings idx ts ≡ none → all_in ts (tags e) ≡ false
  unfolding collect_postings
  collect_postings-none [] h = cc
  collect_postings-none (t ∷ ts) h = elim (Option-cases (idx.term_postings t)) [
    | inl absent ↦
        rw (← tag_here t, IsPostings-none (idx.term_postings t) t es n absent (ok.terms t))
    | inr (l, found) ↦
        let rest : collect_postings idx ts ≡ none = ground (arith, h, found) in
        ground (arith, collect_postings-none ts rest, Bool-cases (mem t (tags e)))
  ]

  below : n < length es
  below = get_elem?-some-lt es n e here

  type_here : (t : Str) → type_is t es n ≡ str_eq t (event_type e)
  type_here t =
      ap (λ (o : Option EventRef). elim o [ none ↦ false | some e' ↦ str_eq t (event_type e') ])
        here

  type_of_id :
      (o : Option ℕ) (t : Str) (rest : List ℕ)
      → IsType idx.type_at o t es
      → num_mem (idx.type_at n) (elim o [ none ↦ rest | some id ↦ id ∷ rest ])
        ≡ (str_eq t (event_type e) || num_mem (idx.type_at n) rest)
  type_of_id none t rest law = rw (← type_here t, law n)
  type_of_id (some id) t rest law = rw (← type_here t, law n below)

  known_ids-mem :
      (tys : List EventType) → num_mem (idx.type_at n) (known_ids idx tys) ≡ mem (event_type e) tys
  unfolding known_ids
  known_ids-mem [] = refl
  known_ids-mem (t ∷ tys) =
      type_of_id (idx.type_id t) t (known_ids idx tys) (ok.types t)
      ∙ ap (λ b. str_eq t (event_type e) || b) (known_ids-mem tys)

  range_here : num_mem n (range_from 0 idx.len) ≡ true
  range_here = ground (arith, num_mem-range_from n 0 idx.len, ok.len, below)

  tag_locals-here :
      (ts : Tags) (ids : Option (List ℕ))
      → num_mem n (tag_locals idx ts ids) ≡ (all_in ts (tags e) && type_kept idx ids n)
  unfolding tag_locals
  tag_locals-here [] ids =
      num_mem-keep (type_kept idx ids) n (range_from 0 idx.len)
      ∙ ap (λ b. b && type_kept idx ids n) range_here
  tag_locals-here (t ∷ ts) ids = elim (Option-cases (collect_postings idx (t ∷ ts))) [
    | inl absent ↦ rw (absent, collect_postings-none (t ∷ ts) absent)
    | inr (lists, found) ↦
        let (l, ls, split) = collect_postings-cons idx t ts lists found in
        rw found (
          num_mem-keep (type_kept idx ids) n (intersect lists)
          ∙ ap (λ b. b && type_kept idx ids n)
              (ap (λ x. num_mem n (intersect x)) split
                ∙ num_mem-intersect n l ls
                ∙ ap (all (num_mem n)) (sym split)
                ∙ collect_postings-some (t ∷ ts) lists found))
  ]

  -- An item's locals hold an indexed event exactly when the item accepts it.
  item_locals-here :
      (item : QueryItem)
      → num_mem n (item_locals idx item) ≡ item_holds item (event_type e) (tags e)
  unfolding item_locals
  item_locals-here item = ground (
    arith,
    tag_locals-here item.tags none,
    tag_locals-here item.tags (some (known_ids idx item.types)),
    known_ids-mem item.types,
  )

module _ (idx : SegmentIndex) (es : List EventRef) (ok : Indexes idx es) (n : ℕ)
    (past : length es ≤ n) where
  range_past : num_mem n (range_from 0 idx.len) ≡ false
  range_past = ground (arith, num_mem-range_from n 0 idx.len, ok.len)

  tag_locals-past : (ts : Tags) (ids : Option (List ℕ)) → num_mem n (tag_locals idx ts ids) ≡ false
  unfolding tag_locals
  tag_locals-past [] ids =
      num_mem-keep (type_kept idx ids) n (range_from 0 idx.len)
      ∙ ap (λ b. b && type_kept idx ids n) range_past
  tag_locals-past (t ∷ ts) ids = elim (Option-cases (collect_postings idx (t ∷ ts))) [
    | inl absent ↦ rw absent
    | inr (lists, found) ↦
        let (l, ls, split) = collect_postings-cons idx t ts lists found in
        rw found (
          num_mem-keep (type_kept idx ids) n (intersect lists)
          ∙ ap (λ b. b && type_kept idx ids n)
              (ap (λ x. num_mem n (intersect x)) split
                ∙ num_mem-intersect n l ls
                ∙ ap (all (num_mem n)) (sym split)
                ∙ collect_postings-past idx es ok t ts lists n found past))
  ]

  item_locals-past : (item : QueryItem) → num_mem n (item_locals idx item) ≡ false
  unfolding item_locals
  item_locals-past item = ground (
    arith,
    tag_locals-past item.tags none,
    tag_locals-past item.tags (some (known_ids idx item.types)),
  )

-- The events' tags come out ascending, as they do of every event that decodes.
abbrev pub AscendingEvents : List EventRef → Type 0
AscendingEvents es = All (λ e. IsAscending (tags e)) es

pub IsAscending-at :
    (es : List EventRef) (n : ℕ) (e : EventRef)
    → AscendingEvents es
    → get_elem? es n ≡ some e
    → IsAscending (tags e)
IsAscending-at [] n e a h = cc
IsAscending-at (x ∷ es) zero e a h =
    let same : x ≡ e = cc h in subst (λ y. IsAscending (tags y)) same a.0
IsAscending-at (x ∷ es) (suc n) e a h = IsAscending-at es n e a.1 h

items_locals-mem :
    (idx : SegmentIndex) (es : List EventRef) (ok : Indexes idx es) (n : ℕ) (items : List QueryItem)
    → All (λ (item : QueryItem). IsAscending item.tags) items
    → AscendingEvents es
    → num_mem n (items_locals idx items)
      ≡ event_at (λ e. any (λ item. item_matches item e) items) es n
unfolding items_locals
items_locals-mem idx es ok n [] wf asc = elim (Option-cases (get_elem? es n)) [
  | inl e ↦ ground (arith, e)
  | inr (e, h) ↦ ground (arith, h)
]
items_locals-mem idx es ok n (item ∷ items) wf asc =
    num_mem-append n (item_locals idx item) (items_locals idx items)
    ∙ elim (Option-cases (get_elem? es n)) [
      | inl gone ↦ ground (
        arith,
        gone,
        item_locals-past idx es ok n (get_elem?-none-le es n gone) item,
        items_locals-mem idx es ok n items wf.1 asc,
      )
      | inr (e, here) ↦ ground (
        arith,
        here,
        item_locals-here idx es ok n e here item,
        item_matches-eq-item_holds item e wf.0 (IsAscending-at es n e asc here),
        items_locals-mem idx es ok n items wf.1 asc,
      )
    ]

-- The evaluator finds a local position exactly when the event there matches.
pub local_matches-mem :
    (idx : SegmentIndex) (es : List EventRef) (q : Query) (n : ℕ)
    → Indexes idx es
    → IsWellFormed q
    → AscendingEvents es
    → num_mem n (local_matches idx q) ≡ event_at (matches q) es n
unfolding local_matches matches
local_matches-mem idx es Query.all n ok wf asc = elim (Option-cases (get_elem? es n)) [
  | inl gone ↦ ground (arith, gone, range_past idx es ok n (get_elem?-none-le es n gone))
  | inr (e, here) ↦ ground (arith, here, range_here idx es ok n e here)
]
local_matches-mem idx es (Query.items items) n ok wf asc =
    num_mem-dedup-sort n (items_locals idx items) ∙ items_locals-mem idx es ok n items wf asc

pub local_matches-RisingFrom : (idx : SegmentIndex) (q : Query) → RisingFrom 0 (local_matches idx q)
unfolding local_matches
local_matches-RisingFrom idx Query.all = range_from-RisingFrom 0 idx.len
local_matches-RisingFrom idx (Query.items items) = dedup-sort-RisingFrom (items_locals idx items)
