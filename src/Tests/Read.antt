-- ===== src/Tests/Read.antt =====
-- Tests of the planning of a read: sealed segments with and without an index, and an active tail.
use tephra.Prelude.{◌≤◌, ◌*◌, ◌-◌, length, ◌≡◌, refl, false, [], ◌∷◌, ◌++◌, none, some, keep, arith}
use tephra.Prelude.Result.{ok}
use tephra.Event.{as_ref, as_bytes, event_type, tags}
use tephra.Index.Tail.{ActiveTail, view, view_full}
use tephra.Index.Tail as Tail
use tephra.Index.Tail.Feed.{TailOf}
use tephra.Index.Tail.View.{feed, feed-TailOf, new-TailOf, view_full-Indexes, view_full-base}
use tephra.Index.Search.Oracle.{scan_from}
use tephra.Index.Plan.Bound.{within, Counts}
use tephra.Index.Plan.View.{make_view-Counts}
use tephra.Read.{Snapshot, truncate, plan_positions, estimate_read, access}
use tephra.Index.Plan.{Access, choose}
use tephra.Read.Within.{SnapshotOf}
use tephra.Read.Estimate.{index_access-narrow}
use tephra.Read.Positions.{plan_positions-eq-scan}
use tephra.Types.Query.{Query}
use tephra.Prelude.Str.{Str}
use tephra.Tests.{ab, tag_t, tag_u, opened, closed, asks_t}
use tephra.Tests.Events.{opened_ascends, closed_ascends, opened_decodes, closed_decodes}

abbrev last_tail : ActiveTail
last_tail = record {
  base = 2;
  type_column = 0 ∷ [];
  postings = (0 ∷ []) ∷ (0 ∷ []) ∷ [];
  tag_ids = (tag_u, 1) ∷ (tag_t, 0) ∷ [];
  type_ids = (ab, 0) ∷ [];
  unindexable = false;
}

abbrev two_segments : Snapshot
two_segments = record {
  sealed_log = record { base_position = 1; records = as_bytes opened ∷ [] } ∷ [];
  sealed_index = none ∷ [];
  active_log = record { base_position = 2; records = as_bytes closed ∷ [] };
  active_index = last_tail;
}

last_tail-feed : feed (Tail.new 2) 2 (as_ref closed ∷ []) ≡ ok last_tail
unfolding feed Tail.new tags event_type Tail.push
last_tail-feed = refl

last_tail-TailOf : TailOf last_tail (as_ref closed ∷ [])
last_tail-TailOf =
    feed-TailOf (as_ref closed ∷ []) [] (Tail.new 2) last_tail 2 (new-TailOf 2) (closed_ascends, tt)
      last_tail-feed

two_segments-SnapshotOf : SnapshotOf two_segments ((as_ref opened ∷ []) ∷ []) (as_ref closed ∷ [])
two_segments-SnapshotOf = record {
  log = record {
    contiguous = (refl, (refl, refl));
    small = omega arith;
    decoded = (opened_decodes, (closed_decodes, tt));
  };
  sealed = (refl, refl, tt, tt);
  base = refl;
  active = λ u. (last_tail-TailOf, refl);
  short = omega arith;
}

plan_positions-eq-scan_example :
    plan_positions two_segments asks_t 0 2 (some 1)
    ≡ ok (
        truncate
          (some 1)
          (keep (within 0 2) (scan_from asks_t 1 ((as_ref opened ∷ []) ++ as_ref closed ∷ []))))
plan_positions-eq-scan_example =
    plan_positions-eq-scan asks_t 0 2 two_segments ((as_ref opened ∷ []) ∷ []) (as_ref closed ∷ [])
      (some 1) (tt, tt) two_segments-SnapshotOf (omega arith)

abbrev first_tail : ActiveTail
first_tail = record {
  base = 1;
  type_column = 0 ∷ [];
  postings = (0 ∷ []) ∷ [];
  tag_ids = (tag_t, 0) ∷ [];
  type_ids = (ab, 0) ∷ [];
  unindexable = false;
}

-- The same log, with an index for the sealed segment too.
abbrev indexed_segments : Snapshot
indexed_segments = record two_segments { sealed_index = some (view_full first_tail) ∷ [] }

abbrev asks_u : Query
asks_u = Query.items (record { types = []; tags = tag_u ∷ [] } ∷ [])

first_tail-feed : feed (Tail.new 1) 1 (as_ref opened ∷ []) ≡ ok first_tail
unfolding feed Tail.new tags event_type Tail.push
first_tail-feed = refl

first_tail-TailOf : TailOf first_tail (as_ref opened ∷ [])
first_tail-TailOf =
    feed-TailOf (as_ref opened ∷ []) [] (Tail.new 1) first_tail 1 (new-TailOf 1)
      (opened_ascends, tt) first_tail-feed

first_tail-Counts :
    (tag : Str)
    → Counts ((view_full first_tail).term_len tag) ((view_full first_tail).term_postings tag)
unfolding view_full
first_tail-Counts tag = make_view-Counts first_tail (as_ref opened ∷ []) 1 tag first_tail-TailOf

indexed_segments-SnapshotOf :
    SnapshotOf indexed_segments ((as_ref opened ∷ []) ∷ []) (as_ref closed ∷ [])
indexed_segments-SnapshotOf = record {
  log = record {
    contiguous = (refl, (refl, refl));
    small = omega arith;
    decoded = (opened_decodes, (closed_decodes, tt));
  };
  sealed = (
    refl,
    refl,
    (
      view_full-Indexes first_tail (as_ref opened ∷ []) first_tail-TailOf,
      view_full-base first_tail,
    ),
    tt,
  );
  base = refl;
  active = two_segments-SnapshotOf.active;
  short = two_segments-SnapshotOf.short;
}

estimated :
    (estimate_read indexed_segments asks_t 0 2 ≡ (2, 2))
    × (estimate_read indexed_segments asks_u 0 2 ≡ (1, 2))
unfolding estimate_read view view_full tephra.Types.Position.saturating_add
estimated = (refl, refl)

picks_index :
    (access indexed_segments asks_u 0 2 2 ≡ Access.index)
    × (access indexed_segments asks_u 0 2 3 ≡ Access.scan)
unfolding access estimate_read choose view view_full tephra.Types.Position.saturating_add
picks_index = (refl, refl)

index_access-narrow_example :
    length (keep (within 0 2) (scan_from asks_u 1 ((as_ref opened ∷ []) ++ as_ref closed ∷ []))) * 2
    ≤ 2 - 0
index_access-narrow_example =
    index_access-narrow asks_u 0 2 indexed_segments ((as_ref opened ∷ []) ∷ []) (as_ref closed ∷ [])
      2 (tt, tt) indexed_segments-SnapshotOf (first_tail-Counts, tt) (omega arith) picks_index.0
