-- ===== src/Tests/Seglog.antt =====
-- Tests of the segment files of crates/seglog.
use tephra.Prelude.{
  ℕ, ◌+◌, ◌%◌, ◌^◌, ◌≡◌, ◌≢◌, ◌≤◌, ◌⊎◌, refl, List, [], ◌∷◌, ◌++◌, none, some, length, take, true,
  false, replicate, arith,
}
use tephra.Prelude.Str.{Bytes}
use tephra.Prelude.Le.{bytes_at}
use tephra.Prelude.Result.{ok, err}
use tephra.Seglog.{Crc32, record_bytes, marker_bytes}
use tephra.Seglog.Recover.{Recovered, recover, valid_record}
use tephra.Seglog.Recover.Total.{recover_total}
use tephra.Seglog.Recover.Committed.{
  Batch, encode_records, encode_batches, last_committed, committed_at, recover_rolls_back,
}
use tephra.Seglog.Write.{
  Writer, WriteError, io, open_file, append, append_batch, rewind_to, set_len,
}
use tephra.Seglog.Write.Holds.{Holds}
use tephra.Seglog.Write.Batches.{sound, Fits, Unfit, append_batch_outcome}
use tephra.Seglog.Write.Crash.{reopen-Holds}
use tephra.Seglog.Write.Faults.{rewind_after_fault}
use tephra.Seglog.Read.{
  parse_record, read_record_random, read_record_sequential, empty_buf, peek, end,
}
use tephra.Seglog.Read.Agree.{readers_agree}
use tephra.Seglog.Read.Buffer.{Fresh}
use tephra.Seglog.Read.RoundTrip.{parse_record-record_bytes}

-- A checksum that has what is asked of the CRC-32.
pub sum : Bytes → ℕ
sum [] = 1
sum (b ∷ bs) = b + sum bs

pub sum_zeros : sum (0 ∷ 0 ∷ 0 ∷ 0 ∷ []) % 2 ^ 32 ≢ 0
unfolding sum
sum_zeros = omega arith

abbrev pub byte_sum : Crc32
unfolding sum
byte_sum = record {
  hash = λ bytes. sum bytes % 2 ^ 32;
  hash-lt = λ bytes. omega arith;
  hash-zeros = sum_zeros;
}

-- A header of two bytes, a batch, and a record of a batch that has no marker.
abbrev first_batch : Batch
first_batch = record { records = ([], 5 ∷ 6 ∷ []) ∷ []; position = 1 }

abbrev unfinished : List (Bytes × Bytes)
unfinished = ([], 7 ∷ []) ∷ []

abbrev after_first : Bytes
after_first = encode_records byte_sum unfinished ++ 0 ∷ 0 ∷ 0 ∷ 0 ∷ 0 ∷ 0 ∷ 0 ∷ 0 ∷ []

abbrev torn_file : Bytes
torn_file = 9 ∷ 9 ∷ encode_batches byte_sum (first_batch ∷ []) ++ after_first

recover_total_example :
    (s : Recovered) × (recover byte_sum torn_file 46 2 ≡ some s)
    × (2 ≤ s.committed_offset)
    × (s.committed_offset ≤ 46)
recover_total_example = recover_total byte_sum torn_file 46 2 (omega arith)

torn_stop : valid_record byte_sum torn_file 46 38 ≡ none
unfolding valid_record sum record_bytes marker_bytes byte_sum bytes_at
torn_stop = refl

recover_rolls_back_example :
    recover byte_sum torn_file 46 2
    ≡ some (committed_at 29 (last_committed (first_batch ∷ []) none))
unfolding record_bytes marker_bytes sum
recover_rolls_back_example =
    recover_rolls_back byte_sum (first_batch ∷ []) torn_file (9 ∷ 9 ∷ []) after_first 46 refl
      (((omega arith, tt), omega arith), tt) (omega arith) unfinished
      (0 ∷ 0 ∷ 0 ∷ 0 ∷ 0 ∷ 0 ∷ 0 ∷ 0 ∷ []) refl (omega arith, tt) (omega arith) torn_stop

-- A new segment of 128 bytes with a header of two.
abbrev fresh : Writer
fresh = record {
  file = replicate 128 0;
  cursor = 2;
  size = 128;
  start_offset = 2;
  write_offset = 2;
  flushed_offset = 2;
  dirty = false;
  max_record = 32;
  last_position = none;
}

fresh-Holds : Holds byte_sum fresh [] []
fresh-Holds = record {
  pre = 0 ∷ 0 ∷ [];
  rest = replicate 126 0;
  file = refl;
  start = refl;
  reach = refl;
  whole = refl;
  small = tt;
  smalls = tt;
  aligned = refl;
  flushed = omega arith;
  committed = refl;
  clean = λ e. refl;
  encodable = omega arith;
}

append_batch_outcome_example :
    (Fits fresh unfinished
      × (w : Writer) × (append_batch byte_sum fresh (sound unfinished) none true 1
          ≡ (w, ok w.write_offset))
      × (w.flushed_offset ≡ w.write_offset)
      × Holds byte_sum w (record { records = unfinished; position = 1 } ∷ []) [])
    ⊎ (Unfit fresh unfinished
        × (w : Writer) × (e : WriteError) × (append_batch byte_sum fresh
              (sound unfinished)
              none
              true
              1
            ≡ (w, err e))
        × Holds byte_sum (rewind_to true w 2).0 [] [])
append_batch_outcome_example =
    append_batch_outcome byte_sum fresh [] unfinished 1 fresh-Holds (omega arith)

-- A writer that holds the first batch.
abbrev committed : Writer
committed = record fresh {
  file = 9 ∷ 9 ∷ encode_batches byte_sum (first_batch ∷ []) ++ replicate 17 0;
  cursor = 29;
  size = 46;
  write_offset = 29;
  flushed_offset = 29;
  last_position = some 1;
}

committed-Holds : Holds byte_sum committed (first_batch ∷ []) []
unfolding record_bytes marker_bytes sum
committed-Holds = record {
  pre = 9 ∷ 9 ∷ [];
  rest = replicate 17 0;
  file = refl;
  start = refl;
  reach = refl;
  whole = refl;
  small = (((omega arith, tt), omega arith), tt);
  smalls = tt;
  aligned = refl;
  flushed = omega arith;
  committed = refl;
  clean = λ e. refl;
  encodable = omega arith;
}

reopen-Holds_example :
    (w : Writer) × (open_file byte_sum torn_file 46 2 ≡ some (ok w))
    × Holds byte_sum w (first_batch ∷ []) []
    × (w.last_position ≡ last_committed (first_batch ∷ []) none)
unfolding record_bytes marker_bytes sum
reopen-Holds_example =
    reopen-Holds byte_sum committed (first_batch ∷ []) [] committed-Holds torn_file refl unfinished
      (0 ∷ 0 ∷ 0 ∷ 0 ∷ 0 ∷ 0 ∷ 0 ∷ 0 ∷ []) refl (omega arith) refl (omega arith, tt) (omega arith)
      torn_stop

rewind_after_fault_example :
    ((append byte_sum (some 3) fresh [] (7 ∷ [])).1 ≡ err io)
    × (rewind_to true (append byte_sum (some 3) fresh [] (7 ∷ [])).0 2
        ≡ ((append byte_sum (some 3) fresh [] (7 ∷ [])).0, ok tt))
    × ((append byte_sum (some 3) fresh [] (7 ∷ [])).0.write_offset ≡ 2)
    × ((append byte_sum (some 3) fresh [] (7 ∷ [])).0.cursor ≡ 5)
rewind_after_fault_example =
    rewind_after_fault byte_sum fresh [] [] (7 ∷ []) 3 fresh-Holds (omega arith) (omega arith)
      (omega arith)

-- The writer after this fault and the rewind.
abbrev shifted : Writer
shifted = record fresh { cursor = 5; dirty = true; file = 0 ∷ 0 ∷ 1 ∷ 0 ∷ 0 ∷ replicate 123 0 }

-- A batch that is then appended is acknowledged, and recovery does not find it.
acknowledged_is_lost :
    ((append_batch byte_sum shifted (sound unfinished) none true 1).1 ≡ ok 28)
    × (recover byte_sum (append_batch byte_sum shifted (sound unfinished) none true 1).0.file 128 2
        ≡ some (committed_at 2 none))
unfolding append_batch recover valid_record bytes_at sum record_bytes marker_bytes
acknowledged_is_lost = (refl, refl)

-- set_len moves the write offset and leaves the cursor of the stream where it was.
set_len_leaves_cursor :
    ((set_len true none true committed 2).0.write_offset ≡ 2)
    × ((set_len true none true committed 2).0.cursor ≡ 29)
unfolding set_len
set_len_leaves_cursor = (refl, refl)

readers_agree_example :
    (read_record_random byte_sum 0 torn_file 29 2 ≡ parse_record byte_sum 0 (take 29 torn_file) 2)
    × ((read_record_sequential byte_sum 0 empty_buf torn_file 29 2).1
        ≡ parse_record byte_sum 0 (take 29 torn_file) 2)
    × Fresh (read_record_sequential byte_sum 0 empty_buf torn_file 29 2).0 torn_file
unfolding record_bytes marker_bytes sum
readers_agree_example = readers_agree byte_sum 0 torn_file 29 2 empty_buf (omega arith) refl

parse_record-record_bytes_example :
    parse_record byte_sum 1 (9 ∷ 9 ∷ record_bytes byte_sum (3 ∷ []) (5 ∷ []) ++ 0 ∷ []) 2
    ≡ ok (record {
      header = 3 ∷ [];
      body = 5 ∷ [];
      offset = 2;
      len = length (record_bytes byte_sum (3 ∷ []) (5 ∷ []));
    })
parse_record-record_bytes_example =
    parse_record-record_bytes byte_sum (9 ∷ 9 ∷ []) (0 ∷ []) (3 ∷ []) (5 ∷ []) (omega arith)

-- A reader looked past the flushed end; the writer commits, and the reader still sees the old bytes.
stale_end : (peek (peek empty_buf (replicate 46 0) 10 2).0 torn_file 29 2).1 ≡ ok end
unfolding peek
stale_end = refl
