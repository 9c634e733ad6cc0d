-- ===== src/Tests/Log.antt =====
-- Tests of the log.
use tephra.Prelude.{◌≡◌, refl, List, [], ◌∷◌, ◌++◌, true, false, arith, keep, ltb}
use tephra.Prelude.Str.{Bytes}
use tephra.Prelude.Result.{ok, err}
use tephra.Types.Position.{Position}
use tephra.Event.{as_bytes}
use tephra.Log.{
  SegmentSet, Segment, locate, segments, all_records, append_batch, scan_after, check_records,
  total_size, taken, refused, tears, write_failed, rewind_failed,
}
use tephra.Log.Locate.{before, last_of, locate-eq-last_of}
use tephra.Log.Scan.{IsLog, placed, scan_after-eq-placed}
use tephra.Tests.{opened, closed, empty_log, small_config, good_disk}

pub empty_log-IsLog : IsLog empty_log
empty_log-IsLog = record {
  contiguous = (refl, refl);
  small = omega arith;
  offset = omega arith;
  header = omega arith;
  file = refl;
  pending = refl;
  torn = refl;
}

abbrev two_records : List Bytes
two_records = as_bytes opened ∷ as_bytes closed ∷ []

-- The second record fails: the first is rewound. The first fails after some of its bytes: they stay.
second_refused :
    append_batch empty_log (record good_disk { appends = taken ∷ refused ∷ [] }) two_records
    ≡ (empty_log, err write_failed)
unfolding append_batch check_records total_size
second_refused = refl

first_torn :
    append_batch empty_log (record good_disk { appends = tears ∷ [] }) two_records
    ≡ (record empty_log { torn = true }, err write_failed)
unfolding append_batch check_records total_size
first_torn = refl

-- A rewind that fails leaves the record for the next commit.
rewind_refused :
    append_batch empty_log
      (record good_disk { committed = false; rewound = false })
      (as_bytes opened ∷ [])
    ≡ (record empty_log { write_offset = 99; pending = as_bytes opened ∷ [] }, err rewind_failed)
unfolding append_batch check_records total_size
rewind_refused = refl

-- A log over two segments.
abbrev two_segments : SegmentSet
two_segments = record {
  config = small_config;
  sealed = record { base_position = 1; records = as_bytes opened ∷ [] } ∷ [];
  active = record { base_position = 2; records = as_bytes closed ∷ [] };
  write_offset = 101;
  next_position = 3;
  file = as_bytes closed ∷ [];
  pending = [];
  torn = false;
}

two_segments-IsLog : IsLog two_segments
two_segments-IsLog = record {
  contiguous = (refl, (refl, refl));
  small = omega arith;
  offset = omega arith;
  header = omega arith;
  file = refl;
  pending = refl;
  torn = refl;
}

scan_after-eq-placed_example :
    scan_after two_segments 1
    ≡ ok (
        keep (λ (r : Position × Bytes). ltb 1 r.0) (placed 1 (all_records (segments two_segments))))
scan_after-eq-placed_example = scan_after-eq-placed two_segments 1 two_segments-IsLog

-- Three sealed segments before the active one, the second of them empty.
abbrev three_sealed : List Segment
three_sealed =
    record { base_position = 1; records = as_bytes opened ∷ as_bytes closed ∷ [] }
    ∷ record { base_position = 3; records = [] }
    ∷ record { base_position = 3; records = as_bytes opened ∷ [] }
    ∷ []

abbrev next_active : Segment
next_active = record { base_position = 4; records = as_bytes closed ∷ [] }

locate-eq-last_of_example :
    locate three_sealed next_active 3 ≡ last_of (before (three_sealed ++ next_active ∷ []) 3)
locate-eq-last_of_example =
    locate-eq-last_of three_sealed next_active 0 3
      (omega arith, (omega arith, (omega arith, (omega arith, tt)))) (omega arith)
