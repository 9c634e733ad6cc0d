-- ===== src/Log.antt =====
-- crates/tephra/src/log/set.rs: the segments of the log, a batch appended as one durable unit, and
-- the sequential scan. A segment is the records that are durable in it; what the file system
-- answers to the writes of one append is a parameter.
pub mod Header
pub mod Locate
pub mod Scan
pub mod Rollover
pub mod Write
pub mod Accepts
pub mod Append
use tephra.Prelude.{
  ℕ, zero, suc, ◌+◌, ◌-◌, ◌/◌, ◌≡◌, Bool, true, false, List, [], ◌∷◌, ◌++◌, Option, none, some,
  if◌then◌else◌, ltb, leb, ◌==◌, ◌&&◌, ◌||◌, length, is_empty, drop, get_elem?,
}
use tephra.Prelude.Str.{Bytes}
use tephra.Prelude.Result.{Result, ok, err, ◌>>=◌, ◌>>◌}
use tephra.Types.Position.{Position, PositionRange, add, sub, next, saturating_add, u32_max}

-- crates/seglog/src/lib.rs: a record's length and checksum, and a commit marker's payload
abbrev pub record_head_size : ℕ
record_head_size = 8

abbrev pub commit_marker_payload : ℕ
commit_marker_payload = 9

abbrev pub segment_header_size : ℕ
segment_header_size = 64

abbrev pub first_position : Position
first_position = 1

abbrev pub record_overhead : ℕ
record_overhead = record_head_size

abbrev pub batch_overhead : ℕ
batch_overhead = record_head_size + commit_marker_payload

pub record SegmentConfig : Type 0 where
  pub segment_size : ℕ
  pub max_record_len : ℕ
  pub header_size : ℕ

pub data LogError : Type 0 where
  invalid_config empty_batch empty_record write_failed create_failed sync_failed rewind_failed :
      LogError
  record_too_large batch_too_large : ℕ → ℕ → LogError
  not_found : Position → LogError

-- SegmentConfig::new
abbrev pub new_config : ℕ → SegmentConfig
new_config segment_size = record {
  segment_size = segment_size;
  max_record_len = segment_size / 4;
  header_size = segment_header_size;
}

-- SegmentConfig::validate
unfoldable pub validate : SegmentConfig → Result LogError (Unit {0})
validate c =
    if leb c.segment_size c.header_size
    then err invalid_config
    else if ltb u32_max c.segment_size
    then err invalid_config
    else if ltb c.max_record_len record_head_size
    then err invalid_config
    else if ltb (c.segment_size - c.header_size)
        (c.max_record_len + record_head_size + commit_marker_payload)
    then err invalid_config
    else ok tt

-- The data records of one segment, from its base position on.
pub record Segment : Type 0 where
  pub base_position : Position
  pub records : List Bytes

-- `active` is the in-memory view of the active segment. Of its writer there is the write offset, and
-- of its file the data records before the last commit marker, those in the stream behind it, and
-- whether the bytes of an incomplete one follow.
pub record SegmentSet : Type 0 where
  pub config : SegmentConfig
  pub sealed : List Segment
  pub active : Segment
  pub write_offset : ℕ
  pub next_position : Position
  pub file : List Bytes
  pub pending : List Bytes
  pub torn : Bool

-- Writer::remaining_bytes of the active segment
abbrev pub remaining_bytes : SegmentSet → ℕ
remaining_bytes set = set.config.segment_size - set.write_offset

-- last_position, segment_capacity, sealed_len
unfoldable pub last_position : SegmentSet → Position
unfolding sub
last_position set = sub set.next_position 1

abbrev pub segment_capacity : SegmentSet → ℕ
segment_capacity set = set.config.segment_size - set.config.header_size

abbrev pub sealed_len : SegmentSet → ℕ
sealed_len set = length set.sealed

-- What one append_data comes to: the record is in the stream, or an error leaves nothing of it or
-- some of its bytes there.
pub data Answer : Type 0 where
  taken refused tears : Answer

-- What the file system answers while a batch is appended: to the sync and the creation of a
-- rollover, to each record (to those past the list, that it is taken), to the commit marker and the
-- sync behind it, and to the seek of a rewind.
pub record Disk : Type 0 where
  pub synced : Bool
  pub created : Bool
  pub appends : List Answer
  pub marker : Answer
  pub committed : Bool
  pub rewound : Bool

-- rollover: the active segment is sealed and an empty one installed behind it
unfoldable pub rollover : SegmentSet → Disk → Result LogError SegmentSet
rollover set disk =
    if disk.synced
    then (if disk.created
        then ok (record set {
          sealed = set.sealed ++ set.active ∷ [];
          active = record { base_position = set.next_position; records = [] };
          write_offset = set.config.header_size;
          file = [];
          pending = [];
          torn = false;
        })
        else err create_failed)
    else err sync_failed

-- The checks of append_batch's first step.
unfoldable pub check_records : SegmentConfig → List Bytes → Result LogError (Unit {0})
check_records c [] = ok tt
check_records c (r ∷ records) =
    let rest = check_records c records in
    if is_empty r
    then err empty_record
    else if ltb c.max_record_len (record_head_size + length r)
    then err (record_too_large (record_head_size + length r) c.max_record_len)
    else rest

unfoldable pub records_len : List Bytes → ℕ
records_len [] = 0
records_len (r ∷ records) = record_head_size + length r + records_len records

-- The total encoded size, with the commit marker.
unfoldable pub total_size : List Bytes → ℕ
unfolding records_len
total_size records = records_len records + record_head_size + commit_marker_payload

-- Writer::append_data of crates/seglog/src/write.rs, and whether it succeeded
unfoldable pub append_data : SegmentSet → Answer → Bytes → SegmentSet × Bool
append_data set taken r = (
  record set {
    write_offset = set.write_offset + (record_head_size + length r);
    pending = set.pending ++ r ∷ [];
  },
  true,
)
append_data set refused r = (set, false)
append_data set tears r = (record set { torn = true }, false)

-- The loop of append_batch over the records.
unfoldable pub append_records : SegmentSet → List Answer → List Bytes → SegmentSet × Bool
unfolding append_data
append_records set answers [] = (set, true)
append_records set [] (r ∷ records) = append_records (append_data set taken r).0 [] records
append_records set (answer ∷ answers) (r ∷ records) =
    let (next, done) = append_data set answer r in
    let rest = append_records next answers records in if done then rest else (next, false)

-- Writer::commit, the marker and then the sync: what stands in the stream becomes durable, as far as
-- it can be read back.
unfoldable pub commit : SegmentSet → Answer → Bool → SegmentSet × Bool
commit set refused synced = (set, false)
commit set tears synced = (record set { torn = true }, false)
commit set taken false = (
  record set { write_offset = set.write_offset + (record_head_size + commit_marker_payload) },
  false,
)
commit set taken true = (
  record set {
    write_offset = set.write_offset + (record_head_size + commit_marker_payload);
    file = if set.torn then set.file else set.file ++ set.pending;
    pending = [];
  },
  true,
)

-- Writer::rewind_to the write offset of `start`, which does nothing unless the offset has advanced.
unfoldable pub rewind_to : SegmentSet → Bool → SegmentSet → SegmentSet × Bool
rewind_to set rewound start =
    if leb set.write_offset start.write_offset
    then (set, true)
    else if rewound
    then (
      record set { write_offset = start.write_offset; pending = start.pending; torn = start.torn },
      true,
    )
    else (set, false)

-- The closure of append_batch: the records, then their commit marker.
unfoldable pub append_and_commit : SegmentSet → Disk → List Bytes → SegmentSet × Bool
unfolding append_records commit
append_and_commit set disk records =
    let (next, done) = append_records set disk.appends records in
    if done then commit next disk.marker disk.committed else (next, false)

-- append_batch, from the rollover on.
unfoldable pub write_batch :
    SegmentSet → Disk → List Bytes → SegmentSet × Result LogError PositionRange
unfolding add append_and_commit rewind_to next
write_batch set disk records =
    let first = set.next_position in
    let last = add first (length records) - 1 in
    let (after, done) = append_and_commit set disk records in
    let (back, undone) = rewind_to after disk.rewound set in
    if done
    then (
      record after {
        active = record after.active { records = after.active.records ++ records };
        next_position = next last;
      },
      ok (record { first = first; last = last }),
    )
    else (back, err (if undone then write_failed else rewind_failed))

-- append_batch
unfoldable pub append_batch :
    SegmentSet → Disk → List Bytes → SegmentSet × Result LogError PositionRange
unfolding check_records total_size rollover write_batch
append_batch set disk records =
    if is_empty records then (set, err empty_batch) else elim (check_records set.config records) [
      | err e ↦ (set, err e)
      | ok u ↦
          if ltb (segment_capacity set) (total_size records)
          then (set, err (batch_too_large (total_size records) (segment_capacity set)))
          else if ltb (remaining_bytes set) (total_size records)
          then elim (rollover set disk) [
            | err e ↦ (set, err e)
            | ok rolled ↦ write_batch rolled disk records
          ]
          else write_batch set disk records
    ]

-- The segments of the set, the sealed ones first, then the active one (segment_at).
abbrev pub segments : SegmentSet → List Segment
segments set = set.sealed ++ set.active ∷ []

-- The loop of SegmentSource::locate: the last of the sealed segments `lo..hi` whose base is at or
-- below `pos`, or what was found before.
unfoldable pub search_bases : ℕ → List Segment → Position → ℕ → ℕ → Option ℕ → Option ℕ
search_bases zero sealed pos lo hi found = found
search_bases (suc fuel) sealed pos lo hi found =
    let mid = lo + (hi - lo) / 2 in
    let right = search_bases fuel sealed pos (mid + 1) hi (some mid) in
    let left = search_bases fuel sealed pos lo mid found in
    if ltb lo hi
    then elim (get_elem? sealed mid) [
      | none ↦ none
      | some s ↦ if leb s.base_position pos then right else left
    ]
    else found

-- SegmentSource::locate: the index of the segment that owns `pos`
unfoldable pub locate : List Segment → Segment → Position → Option ℕ
unfolding search_bases
locate sealed active pos =
    if pos == 0
    then none
    else if leb active.base_position pos
    then some (length sealed)
    else search_bases (length sealed) sealed pos 0 (length sealed) none

abbrev pub all_records : List Segment → List Bytes
all_records [] = []
all_records (s ∷ rest) = s.records ++ all_records rest

-- The records that Scan::next yields one by one, up to the bound.
unfoldable pub emit : Position → Position → List Bytes → List (Position × Bytes)
unfolding next
emit position upto [] = []
emit position upto (r ∷ records) =
    let rest = emit (next position) upto records in
    if ltb upto position then [] else (position, r) ∷ rest

-- Scan::start, with the whole stream it opens
unfoldable pub scan :
    List Segment → Segment → Position → Position → Result LogError (List (Position × Bytes))
unfolding locate emit sub
scan sealed active from upto =
    if (from == 0) || ltb upto from then ok [] else elim (locate sealed active from) [
      | none ↦ err (not_found from)
      | some idx ↦ elim (drop idx (sealed ++ active ∷ [])) [
        | [] ↦ err (not_found from)
        | s ∷ rest ↦
            let local = sub from s.base_position in
            if ltb local (length s.records)
            then ok (emit from upto (drop local s.records ++ all_records rest))
            else err (not_found from)
      ]
    ]

-- scan_after
unfoldable pub scan_after : SegmentSet → Position → Result LogError (List (Position × Bytes))
unfolding scan saturating_add last_position
scan_after set pos = scan set.sealed set.active (saturating_add pos 1) (last_position set)
