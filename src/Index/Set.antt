-- ===== src/Index/Set.antt =====
-- crates/tephra/src/index/set.rs: one index per sealed segment and the tail over the active one.
pub mod Held
pub mod Scan
pub mod Feed
use tephra.Prelude.{
  ℕ, ◌+◌, ◌-◌, ◌≡◌, Bool, true, false, List, [], ◌∷◌, ◌++◌, Option, none, some, if◌then◌else◌, ltb,
  leb, ◌==◌, length,
}
use tephra.Prelude.Result.{Result, ok, err, ◌>>=◌}
use tephra.Types.Position.{Position, PositionRange}
use tephra.Types.Query.{Query}
use tephra.Event.{EventRef}
use tephra.Index.Interface.{SegmentIndex}
use tephra.Index.Search.{search_after}
use tephra.Index.Tail.{
  ActiveTail, PushError, fed_out_of_order, too_many_types, mark_unindexable, view_full,
}
use tephra.Index.Tail as Tail

pub record SealedIndex : Type 0 where
  pub base : Position
  pub count : ℕ
  pub seg : Option SegmentIndex

pub record IndexSet : Type 0 where
  pub sealed : List SealedIndex
  pub active : ActiveTail
  pub active_base : Position
  pub active_span : ℕ
  pub active_unindexable : Bool

pub data IndexError : Type 0 where
  unindexable : PositionRange → IndexError

-- IndexSet::push; `none` is the panic of the tail's assertion on the feed order
unfoldable pub push : IndexSet → Position → EventRef → Option IndexSet
unfolding Tail.push
push s position e =
    let counted = record s { active_span = s.active_span + 1 } in
    if s.active_unindexable then some counted else elim (Tail.push s.active position e) [
      | ok t ↦ some (record counted { active = t })
      | err fed_out_of_order ↦ none
      | err (too_many_types limit) ↦
          some (record counted { active = mark_unindexable s.active; active_unindexable = true })
    ]

-- IndexSet::seal_active. `sealed_form` stands for what the encoded segment answers
-- (IndexSegment::from_bytes of IndexSegment::encode).
unfoldable pub seal_active : (ActiveTail → SegmentIndex) → IndexSet → Position → IndexSet
unfolding Tail.new
seal_active sealed_form s new_base =
    let slot : Option SegmentIndex =
      if s.active_unindexable then none else some (sealed_form s.active) in
    let entry : SealedIndex = record { base = s.active_base; count = s.active_span; seg = slot } in
    record {
      sealed = s.sealed ++ entry ∷ [];
      active = Tail.new new_base;
      active_base = new_base;
      active_span = 0;
      active_unindexable = false;
    }

-- The first loop of plan_touched, over the sealed segments.
unfoldable pub plan_sealed : List SealedIndex → Position → Result IndexError (List SegmentIndex)
plan_sealed [] after = ok []
plan_sealed (entry ∷ sealed) after =
    let rest = plan_sealed sealed after in
    let max = entry.base + entry.count - 1 in
    if entry.count == 0 then rest else if leb max after then rest else elim entry.seg [
      | some seg ↦ (rest >>= λ plan. ok (seg ∷ plan))
      | none ↦ err (unindexable (record { first = entry.base; last = max }))
    ]

-- plan_touched: what it adds for the active segment
unfoldable pub plan_active : IndexSet → Position → Result IndexError (List SegmentIndex)
unfolding view_full
plan_active s after =
    let max = s.active_base + s.active_span - 1 in
    if ltb 0 s.active_span
    then (if ltb after max
        then (if s.active_unindexable
            then err (unindexable (record { first = s.active_base; last = max }))
            else ok (view_full s.active ∷ []))
        else ok [])
    else ok []

-- plan_touched
unfoldable pub plan_touched : IndexSet → Position → Result IndexError (List SegmentIndex)
unfolding plan_sealed plan_active
plan_touched s after =
    plan_sealed s.sealed after >>= λ sealed. plan_active s after >>= λ active. ok (sealed ++ active)

-- search_all: the loop over the plan
unfoldable pub search_plan : List SegmentIndex → Query → Position → List Position
unfolding search_after
search_plan [] q after = []
search_plan (seg ∷ plan) q after = search_after seg q after ++ search_plan plan q after

unfoldable pub search_all : IndexSet → Query → Position → Result IndexError (List Position)
unfolding plan_touched search_plan
search_all s q after = plan_touched s after >>= λ plan. ok (search_plan plan q after)

-- Iterator::next on a fresh iterator
abbrev pub first : List Position → Option Position
first [] = none
first (p ∷ ps) = some p

-- find_match: the loop that stops at the first segment with a match
unfoldable pub find_in_plan : List SegmentIndex → Query → Position → Option Position
unfolding search_after
find_in_plan [] q after = none
find_in_plan (seg ∷ plan) q after =
    let rest = find_in_plan plan q after in
    elim (first (search_after seg q after)) [ some p ↦ some p | none ↦ rest ]

unfoldable pub find_match : IndexSet → Query → Position → Result IndexError (Option Position)
unfolding plan_touched find_in_plan
find_match s q after = plan_touched s after >>= λ plan. ok (find_in_plan plan q after)
