-- ===== src/Seglog/Write.antt =====
-- crates/seglog/src/write.rs: the writer of a segment file. `file` is what the file holds when the
-- buffer of the BufWriter is flushed, and `cursor` is where the next byte given to it goes. What the
-- system answers is an argument: a write fails after some number of bytes was taken, a sync or a
-- seek succeeds or not.
pub mod Holds
pub mod Batches
pub mod Crash
pub mod Faults
use tephra.Prelude.{
  ℕ, ◌+◌, ◌-◌, ◌*◌, ◌/◌, ◌≡◌, Bool, true, false, List, [], ◌∷◌, ◌++◌, Option, none, some,
  if◌then◌else◌, ltb, leb, length, take, drop, min, replicate,
}
use tephra.Prelude.Str.{Bytes}
use tephra.Prelude.Result.{Result, ok, err}
use tephra.Seglog.{
  Crc32, record_head_size, commit_marker_payload, max_record_len, record_bytes, marker_bytes,
}
use tephra.Seglog.Recover.{Recovered, recover}

pub data WriteError : Type 0 where
  segment_full : ℕ → ℕ → WriteError
  invalid_start_offset : ℕ → ℕ → WriteError
  record_too_large : ℕ → ℕ → WriteError
  io : WriteError

pub record Writer : Type 0 where
  pub file : Bytes
  pub cursor : ℕ
  pub size : ℕ
  pub start_offset : ℕ
  pub write_offset : ℕ
  pub flushed_offset : ℕ
  pub dirty : Bool
  pub max_record : ℕ
  pub last_position : Option ℕ

-- `?` on the result of a call that also changes the writer.
abbrev pub and_then {ℓ κ} :
    {A : Type ℓ} {B : Type κ}
    → Writer × Result WriteError A
    → (Writer → A → Writer × Result WriteError B)
    → Writer × Result WriteError B
and_then (w, ok a) f = f w a
and_then (w, err e) f = (w, err e)

-- `bytes` written over what the file holds at `at`.
unfoldable pub write_at : Bytes → ℕ → Bytes → Bytes
write_at file at bytes = take at file ++ (bytes ++ drop (at + length bytes) file)

-- What the writes of one record met: all was taken, or the first bytes only.
abbrev pub taken : Option ℕ → Bytes → Bytes
taken none bytes = bytes
taken (some k) bytes = take k bytes

-- The write_all calls of one record.
unfoldable pub write_all : Option ℕ → Writer → Bytes → Writer
unfolding write_at
write_all fault w bytes = record w {
  file = write_at w.file w.cursor (taken fault bytes);
  cursor = w.cursor + length (taken fault bytes);
  dirty = true;
}

-- record_hard_limit, default_max_record
unfoldable pub record_hard_limit : ℕ → ℕ → ℕ
record_hard_limit size start_offset =
    size - start_offset - (record_head_size + commit_marker_payload)

unfoldable pub default_max_record : ℕ → ℕ → ℕ
unfolding record_hard_limit
default_max_record size start_offset =
    min (min (size / 4) (record_hard_limit size start_offset)) max_record_len

abbrev pub zeros : ℕ → Bytes
zeros n = replicate n 0

-- Writer::create, of a file that fallocate has filled with zeros
unfoldable pub create : ℕ → ℕ → Result WriteError Writer
unfolding default_max_record
create size start_offset =
    if leb size start_offset
    then err (invalid_start_offset size start_offset)
    else ok (record {
      file = zeros size;
      cursor = start_offset;
      size = size;
      start_offset = start_offset;
      write_offset = start_offset;
      flushed_offset = start_offset;
      dirty = false;
      max_record = default_max_record size start_offset;
      last_position = none;
    })

abbrev opened : Bytes → ℕ → ℕ → Recovered → Writer
opened file size start_offset r = record {
  file = file;
  cursor = r.committed_offset;
  size = size;
  start_offset = start_offset;
  write_offset = r.committed_offset;
  flushed_offset = r.committed_offset;
  dirty = false;
  max_record = default_max_record size start_offset;
  last_position = r.last_position;
}

-- Writer::open; recover always ends, so that none is never met.
unfoldable pub open_file : Crc32 → Bytes → ℕ → ℕ → Option (Result WriteError Writer)
unfolding recover default_max_record
open_file c file size start_offset =
    if leb size start_offset
    then some (err (invalid_start_offset size start_offset))
    else elim (recover c file size start_offset) [
      | none ↦ none
      | some r ↦ some (ok (opened file size start_offset r))
    ]

-- Writer::append
unfoldable pub append :
    Crc32 → Option ℕ → Writer → Bytes → Bytes → Writer × Result WriteError (ℕ × ℕ)
unfolding write_all record_bytes
append c fault w header body =
    let total_record_len = record_head_size + length header + length body in
    let written = write_all fault w (record_bytes c header body) in
    if ltb w.max_record total_record_len
    then (w, err (record_too_large total_record_len w.max_record))
    else if ltb w.size (w.write_offset + total_record_len)
    then (w, err (segment_full w.write_offset (w.size - w.write_offset)))
    else elim fault [
      | some k ↦ (written, err io)
      | none ↦ (
        record written { write_offset = w.write_offset + total_record_len },
        ok (w.write_offset, total_record_len),
      )
    ]

-- Writer::write_commit_marker
unfoldable pub write_commit_marker :
    Crc32 → Option ℕ → Writer → ℕ → Writer × Result WriteError (Unit {0})
unfolding write_all marker_bytes
write_commit_marker c fault w highest_position =
    let total = record_head_size + commit_marker_payload in
    let written = write_all fault w (marker_bytes c highest_position) in
    if ltb w.size (w.write_offset + total)
    then (w, err (segment_full w.write_offset (w.size - w.write_offset)))
    else elim fault [
      | some k ↦ (written, err io)
      | none ↦ (record written { write_offset = w.write_offset + total }, ok tt)
    ]

-- Writer::sync
unfoldable pub sync : Bool → Writer → Writer × Result WriteError ℕ
sync synced w =
    if w.dirty
    then (if synced
        then (record w { flushed_offset = w.write_offset; dirty = false }, ok w.write_offset)
        else (w, err io))
    else (w, ok w.write_offset)

-- Writer::commit
unfoldable pub commit : Crc32 → Option ℕ → Bool → Writer → ℕ → Writer × Result WriteError ℕ
unfolding write_commit_marker sync
commit c fault synced w highest_position =
    and_then (write_commit_marker c fault w highest_position)
      (λ marked done. sync synced (record marked { last_position = some highest_position }))

-- The loop of Writer::append_batch, with what the writes of each record met.
unfoldable pub append_all :
    Crc32 → Writer → List (Option ℕ × Bytes × Bytes) → Writer × Result WriteError (Unit {0})
unfolding append
append_all c w [] = (w, ok tt)
append_all c w ((fault, header, body) ∷ records) =
    and_then (append c fault w header body) (λ next done. append_all c next records)

-- Writer::append_batch
unfoldable pub append_batch :
    Crc32
    → Writer
    → List (Option ℕ × Bytes × Bytes)
    → Option ℕ
    → Bool
    → ℕ
    → Writer × Result WriteError ℕ
unfolding append_all commit
append_batch c w records fault synced highest_position =
    and_then (append_all c w records) (λ next done. commit c fault synced next highest_position)

-- Writer::set_max_record, remaining_bytes
unfoldable pub set_max_record : Writer → ℕ → Writer
unfolding record_hard_limit
set_max_record w max_record = record w {
  max_record = min max_record (record_hard_limit w.size w.start_offset);
}

unfoldable pub remaining_bytes : Writer → ℕ
remaining_bytes w = w.size - w.write_offset

-- Writer::rewind_to
unfoldable pub rewind_to : Bool → Writer → ℕ → Writer × Result WriteError (Unit {0})
rewind_to sought w offset =
    if leb w.write_offset offset
    then (w, ok tt)
    else if sought
    then (
      record w { cursor = offset; write_offset = offset; dirty = ltb w.flushed_offset offset },
      ok tt,
    )
    else (w, err io)

-- Writer::set_len: the marker is written through the file handle, at its place in the file, and
-- made durable.
unfoldable pub set_len : Bool → Option ℕ → Bool → Writer → ℕ → Writer × Result WriteError (Unit {0})
unfolding sync write_at
set_len synced fault stored w offset =
    if leb w.write_offset offset
    then (w, ok tt)
    else and_then (sync synced w) (λ flushed done. (
      record flushed {
        flushed_offset = offset;
        write_offset = offset;
        file = write_at flushed.file offset (taken fault (zeros record_head_size));
      },
      elim fault [ some k ↦ err io | none ↦ if stored then ok tt else err io ],
    ))
