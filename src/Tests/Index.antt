-- ===== src/Tests/Index.antt =====
-- Tests of the tail, the evaluator and the index set.
use mathlib.Core.List.{reverse}
use tephra.Prelude.{
  ◌+◌, ◌-◌, ◌≡◌, refl, true, ◌⊎◌, false, List, [], ◌∷◌, ◌++◌, some, arith, keep, ltb, take, length,
}
use tephra.Prelude.Result.{ok}
use tephra.Event.{EventRef, as_ref, event_type, tags}
use tephra.Index.Interface.{Indexes}
use tephra.Index.Search.{search_after, search_back}
use tephra.Index.Search.Locals.{AscendingEvents}
use tephra.Index.Search.Oracle.{scan_from, search_after-eq-scan, search_back-eq-scan}
use tephra.Index.Tail.{ActiveTail, view, view_full}
use tephra.Index.Tail as Tail
use tephra.Index.Tail.View.{feed, feed-Indexes, view-Indexes, view_full-base, new-TailOf, base_new}
use tephra.Index.Plan.{estimate_matches}
use tephra.Index.Recovery.{Rebuilt, rebuild}
use tephra.Index.Tail.Names.{TooManyTypes}
use tephra.Index.Recovery.Rebuild.{rebuild-Indexes}
use tephra.Writer.Condition.Exact.{placed_events}
use tephra.Index.Set.{IndexSet, push, seal_active, search_all, find_match, first}
use tephra.Index.Set.Held.{IndexSetOf, found_after}
use tephra.Index.Set.Scan.{find_match-eq-scan}
use tephra.Index.Set.Feed.{IsFed, push-IsFed, seal_active-IsFed, Published, Faithful}
use tephra.Tests.{ab, tag_t, tag_u, opened, closed, asks_t}
use tephra.Tests.Events.{opened_ascends, closed_ascends}

abbrev two_events : List EventRef
two_events = as_ref opened ∷ as_ref closed ∷ []

two_ascend : AscendingEvents two_events
two_ascend = (opened_ascends, (closed_ascends, tt))

abbrev fed_tail : ActiveTail
fed_tail = record {
  base = 1;
  type_column = 0 ∷ 0 ∷ [];
  postings = (0 ∷ 1 ∷ []) ∷ (1 ∷ []) ∷ [];
  tag_ids = (tag_u, 1) ∷ (tag_t, 0) ∷ [];
  type_ids = (ab, 0) ∷ [];
  unindexable = false;
}

fed_tail-feed : feed (Tail.new 1) 1 two_events ≡ ok fed_tail
unfolding feed Tail.new tags event_type Tail.push
fed_tail-feed = refl

view-Indexes_example : Indexes (view fed_tail 1) (take (1 - 1 + 1) two_events)
view-Indexes_example =
    view-Indexes 1 1 two_events fed_tail two_ascend fed_tail-feed (omega arith) (omega arith)
      (omega arith)

full : Indexes (view_full fed_tail) two_events
full = feed-Indexes 1 two_events fed_tail two_ascend fed_tail-feed

search_after-eq-scan_example :
    search_after (view_full fed_tail) asks_t 1
    ≡ keep (λ p. ltb 1 p) (scan_from asks_t (view_full fed_tail).base two_events)
search_after-eq-scan_example =
    search_after-eq-scan (view_full fed_tail) two_events asks_t 1 full (tt, tt) two_ascend
      (omega (arith, view_full-base fed_tail))

search_back-eq-scan_example :
    search_back (view_full fed_tail) asks_t 3
    ≡ keep (λ p. ltb p 3) (reverse (scan_from asks_t (view_full fed_tail).base two_events))
search_back-eq-scan_example =
    search_back-eq-scan (view_full fed_tail) two_events asks_t 3 full (tt, tt) two_ascend
      (omega (arith, view_full-base fed_tail))

abbrev pub no_index : IndexSet
no_index = record {
  sealed = [];
  active = Tail.new 1;
  active_base = 1;
  active_span = 0;
  active_unindexable = false;
}

pub no_index-IsFed : IsFed no_index [] []
no_index-IsFed = record {
  sealed = tt;
  base = refl;
  span = refl;
  active = λ u. (new-TailOf 1, base_new 1);
}

-- A set with one event, from the theorem.
abbrev one_index : IndexSet
one_index =
    (push-IsFed no_index [] [] 1 (as_ref opened) no_index-IsFed opened_ascends refl (omega arith)).0

one_index-IsFed : IsFed one_index [] (as_ref opened ∷ [])
one_index-IsFed =
    (push-IsFed no_index [] [] 1 (as_ref opened) no_index-IsFed opened_ascends refl (omega arith)).2

pub view_full-Faithful : Faithful view_full
view_full-Faithful = λ t es i. (i, view_full-base t)

seal_active-IsFed_example :
    IsFed (seal_active view_full one_index 2) ([] ++ (as_ref opened ∷ []) ∷ []) []
    × ((seal_active view_full one_index 2).active_unindexable ≡ false)
    × Published one_index (seal_active view_full one_index 2) (as_ref opened ∷ [])
seal_active-IsFed_example =
    seal_active-IsFed view_full one_index [] (as_ref opened ∷ []) 2 view_full-Faithful
      one_index-IsFed (omega (arith, one_index-IsFed.base))

abbrev two_index : IndexSet
two_index = record {
  sealed = [];
  active = fed_tail;
  active_base = 1;
  active_span = 2;
  active_unindexable = false;
}

two_index-IndexSetOf : IndexSetOf two_index [] two_events
two_index-IndexSetOf = record {
  sealed = tt;
  base = refl;
  span = refl;
  active = λ u. (full, view_full-base fed_tail);
}

both_found : search_all two_index asks_t 0 ≡ ok (1 ∷ 2 ∷ [])
unfolding search_all
both_found = refl

second_found : find_match two_index asks_t 1 ≡ ok (some 2)
unfolding find_match
second_found = refl

find_match-eq-scan_example : some 2 ≡ first (found_after asks_t 1 1 ([] ++ two_events))
find_match-eq-scan_example =
    find_match-eq-scan asks_t 1 (tt, tt) two_index [] two_events (some 2) two_index-IndexSetOf
      two_ascend (omega arith) second_found

two_estimated : estimate_matches (view_full fed_tail) asks_t 5 ≡ 2
unfolding estimate_matches view_full tephra.Types.Position.saturating_add
two_estimated = refl

rebuild-Indexes_example :
    (r : Rebuilt) × (rebuild 1 (placed_events 1 two_events) ≡ some r)
    × (r.count ≡ length two_events)
    × (((r.unindexable ≡ true) × TooManyTypes two_events)
        ⊎ ((r.unindexable ≡ false)
            × Indexes (view_full r.index) two_events
            × ((view_full r.index).base ≡ 1)))
rebuild-Indexes_example = rebuild-Indexes 1 two_events two_ascend (omega arith)
