-- ===== src/Log/Append.antt =====
-- SegmentSet::append_batch of crates/tephra/src/log/set.rs: all of a batch or nothing.
use tephra.Prelude.{◌+◌, ◌-◌, ◌≤◌, ◌<◌, ◌≡◌, ◌∙◌, true, false, ◌⊎◌, List, ◌++◌, length, arith}
use tephra.Prelude.Str.{Bytes}
use tephra.Prelude.Result.{Result, ok, err}
use tephra.Types.Position.{PositionRange, next, next-eq, add, add-eq, u64_mod}
use tephra.Log.{SegmentSet, LogError, Disk}
use tephra.Log.Write.{committed, tears_first}
use tephra.Log.Scan.{IsLog}
use tephra.Log.Rollover.{log_of}

-- What a successful append has done.
pub record Appended (set set' : SegmentSet) (records : List Bytes) (range : PositionRange)
    : Type 0 where
  pub is_log : IsLog set'
  pub content : log_of set' ≡ log_of set ++ records
  pub from : range.first ≡ set.next_position
  pub upto : range.last + 1 ≡ set.next_position + length records
  pub advanced : set'.next_position ≡ set.next_position + length records
  pub same_config : set'.config ≡ set.config

-- What a refused one has: nothing of the log.
pub record Untouched (set set' : SegmentSet) : Type 0 where
  pub is_log : IsLog set'
  pub content : log_of set' ≡ log_of set
  pub same_next : set'.next_position ≡ set.next_position
  pub same_config : set'.config ≡ set.config

-- A refused one whose remains in the stream could not be undone: the view in memory, and what the
-- file has committed, are as they were.
pub record Wedged (set set' : SegmentSet) : Type 0 where
  pub content : log_of set' ≡ log_of set
  pub same_next : set'.next_position ≡ set.next_position
  pub same_config : set'.config ≡ set.config
  pub file : set'.file ≡ set'.active.records

-- What becomes of the set, by the result.
abbrev pub Outcome :
    SegmentSet → Disk → SegmentSet → List Bytes → Result LogError PositionRange → Type 0
Outcome set disk set' records (ok range) = Appended set set' records range
Outcome set disk set' records (err e) =
    Untouched set set'
    ⊎ (Wedged set set' × ((tears_first disk.appends ≡ true) ⊎ (disk.rewound ≡ false)))

abbrev OutcomeOf :
    SegmentSet → Disk → List Bytes → SegmentSet × Result LogError PositionRange → Type 0
OutcomeOf set disk records r = Outcome set disk r.0 records r.1

abbrev written : SegmentSet → List Bytes → SegmentSet
written set records = record (committed set records) {
  active = record set.active { records = set.active.records ++ records };
  next_position = next (add set.next_position (length records) - 1);
}

module _ (set : SegmentSet) (disk : Disk) (records : List Bytes) (some_records : 1 ≤ length records)
    (room : set.next_position + length records < u64_mod) where
  advance : next (add set.next_position (length records) - 1) ≡ set.next_position + length records
  advance =
      let sum = add-eq set.next_position (length records) room in
      next-eq (add set.next_position (length records) - 1) (omega (arith, sum)) ∙ omega (arith, sum)
