-- ===== src/Seglog/Write/Faults.antt =====
-- Writer::rewind_to of crates/seglog/src/write.rs after a record whose bytes were written in part.
use tephra.Prelude.{
  ℕ, ◌+◌, ◌≤◌, ◌≡◌, refl, some, List, [], length, length-take, arith, true, le→ltb_false, le→leb,
}
use tephra.Prelude.Str.{Bytes}
use tephra.Prelude.Result.{ok, err}
use tephra.Seglog.{Crc32, record_bytes}
use tephra.Seglog.Recover.Committed.{Batch, length-record_bytes}
use tephra.Seglog.Write.{Writer, io, write_all, append, rewind_to}
use tephra.Seglog.Write.Holds.{Holds}

-- A writer that holds batches and no unfinished one, and the first record of a batch, which fits: if
-- the writes of this record fail after `k` of its bytes, then rewinding to the offset before the
-- batch reports success and changes nothing. The write offset is that offset, and the next byte
-- goes `k` bytes behind it.
pub rewind_after_fault :
    (c : Crc32) (w : Writer) (bs : List Batch) (header body : Bytes) (k : ℕ)
    → Holds c w bs []
    → 8 + length header + length body ≤ w.max_record
    → w.write_offset + (8 + length header + length body) ≤ w.size
    → k ≤ 8 + length header + length body
    → ((append c (some k) w header body).1 ≡ err io)
      × (rewind_to true (append c (some k) w header body).0 w.write_offset
          ≡ ((append c (some k) w header body).0, ok tt))
      × ((append c (some k) w header body).0.write_offset ≡ w.write_offset)
      × ((append c (some k) w header body).0.cursor ≡ w.write_offset + k)
unfolding append write_all rewind_to
rewind_after_fault c w bs header body k holds small fits h =
    rw
      (
        le→ltb_false w.max_record (8 + length header + length body) small,
        le→ltb_false w.size (w.write_offset + (8 + length header + length body)) fits,
      )
      (
        refl,
        rw (le→leb w.write_offset w.write_offset (omega arith)) refl,
        refl,
        omega (
          arith,
          holds.aligned,
          length-take k (record_bytes c header body),
          length-record_bytes c header body,
        ),
      )
