-- ===== src/Seglog/Recover.antt =====
-- crates/seglog/src/write.rs: recover, the scan of Writer::open for the committed end of a segment.
pub mod Total
pub mod Framed
pub mod Committed
use tephra.Prelude.{
  ℕ, zero, suc, ◌+◌, ◌%◌, ◌^◌, Bool, false, ◌&&◌, Option, none, some, if◌then◌else◌, ltb, ◌==◌,
  length, get_or, take, drop, [],
}
use tephra.Prelude.Str.{Bytes}
use tephra.Prelude.Le.{to_le, of_le, slice, bytes_at}
use tephra.Seglog.{
  Crc32, len_size, record_head_size, length_of, has_control_flag, has_unknown_flags,
  is_truncation_marker, calculate_crc32c, commit_marker_payload, batch_commit,
}

-- A record that the loop has validated.
pub record Valid : Type 0 where
  pub is_control : Bool
  pub payload : Bytes
  pub record_end : ℕ

-- The payload that the head announces, with its checksum.
unfoldable pub check_payload : Crc32 → Bytes → ℕ → ℕ → ℕ → Option Valid
check_payload c file payload_offset raw crc = elim (bytes_at file payload_offset (length_of raw)) [
  | none ↦ none
  | some payload ↦
      if calculate_crc32c c (to_le 4 raw) [] payload == crc
      then some (record {
        is_control = has_control_flag raw;
        payload = payload;
        record_end = payload_offset + length_of raw;
      })
      else none
]

unfoldable pub check_head : Crc32 → Bytes → ℕ → ℕ → Bytes → Option Valid
unfolding check_payload
check_head c file size payload_offset head =
    let raw = of_le (take len_size head) in
    if is_truncation_marker head
    then none
    else if has_unknown_flags raw
    then none
    else if ltb size (payload_offset + length_of raw)
    then none
    else check_payload c file payload_offset raw (of_le (slice head len_size record_head_size))

-- One round of the loop: the record at the cursor, or none where the loop breaks.
unfoldable pub valid_record : Crc32 → Bytes → ℕ → ℕ → Option Valid
unfolding check_head
valid_record c file size cursor =
    let payload_offset = cursor + record_head_size in
    if ltb size payload_offset then none else elim (bytes_at file cursor record_head_size) [
      | none ↦ none
      | some head ↦ check_head c file size payload_offset head
    ]

pub record Recovered : Type 0 where
  pub committed_offset : ℕ
  pub last_position : Option ℕ

-- Only a commit marker advances the committed point.
unfoldable pub accept : Valid → Recovered → Recovered
accept v r =
    if v.is_control
      && (length v.payload == commit_marker_payload && get_or v.payload 0 0 == batch_commit)
    then record { committed_offset = v.record_end; last_position = some (of_le (drop 1 v.payload)) }
    else r

-- The loop, on fuel; none means that the fuel ran out.
unfoldable pub recover_loop : ℕ → Crc32 → Bytes → ℕ → ℕ → Recovered → Option Recovered
recover_loop zero c file size cursor r = none
recover_loop (suc fuel) c file size cursor r = elim (valid_record c file size cursor) [
  | none ↦ some r
  | some v ↦ recover_loop fuel c file size v.record_end (accept v r)
]

-- recover: each round takes a byte at least, so that the size is fuel enough.
unfoldable pub recover : Crc32 → Bytes → ℕ → ℕ → Option Recovered
unfolding recover_loop
recover c file size start_offset =
    recover_loop (suc size) c file size start_offset
      (record { committed_offset = start_offset; last_position = none })
