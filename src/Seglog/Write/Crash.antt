-- ===== src/Seglog/Write/Crash.antt =====
-- A segment file of crates/seglog/src/write.rs after a crash: what a writer that opens it again holds.
use tephra.Prelude.{
  ℕ, ◌+◌, ◌≤◌, ◌<◌, ◌≡◌, refl, sym, ap, ◌∙◌, none, some, List, [], ◌++◌, append_assoc, length,
  length-append, take, drop, take-append-drop, arith, All, false, length-replicate, lt→leb_false,
  subst, length-take,
}
use tephra.Prelude.Str.{Bytes}
use tephra.Prelude.Le.{take-behind}
use tephra.Prelude.Result.{ok}
use tephra.Seglog.{Crc32, max_record_len}
use tephra.Seglog.Recover.{Recovered, valid_record, recover}
use tephra.Seglog.Recover.Committed.{
  Batch, encode_records, encode_batches, IsSmall, last_committed, committed_at,
  recover_keeps_batches, recover_rolls_back,
}
use tephra.Seglog.Write.{Writer, zeros, create, opened, open_file, default_max_record}
use tephra.Seglog.Write.Holds.{Holds}

length-zeros : (size : ℕ) → length (zeros size) ≡ size
length-zeros size = length-replicate size 0

default_max_record-le : (size start : ℕ) → default_max_record size start ≤ max_record_len
unfolding default_max_record
default_max_record-le size start = omega arith

-- A segment that is created holds nothing.
pub create-Holds :
    (c : Crc32) (size start_offset : ℕ)
    → start_offset < size
    → (w : Writer) × (create size start_offset ≡ ok w) × Holds c w [] []
unfolding create
create-Holds c size start_offset h =
    let fresh : Writer = record {
      file = zeros size;
      cursor = start_offset;
      size = size;
      start_offset = start_offset;
      write_offset = start_offset;
      flushed_offset = start_offset;
      dirty = false;
      max_record = default_max_record size start_offset;
      last_position = none;
    } in
    (
      fresh,
      rw (lt→leb_false start_offset size h) refl,
      record {
        pre = take start_offset (zeros size);
        rest = drop start_offset (zeros size);
        file = sym (take-append-drop start_offset (zeros size));
        start = omega (arith, length-take start_offset (zeros size), length-zeros size);
        reach = omega arith;
        whole = length-zeros size;
        small = tt;
        smalls = tt;
        aligned = refl;
        flushed = omega arith;
        committed = omega arith;
        clean = λ e. refl;
        encodable = default_max_record-le size start_offset;
      },
    )

module _ (c : Crc32) (w : Writer) (bs : List Batch) (pending : List (Bytes × Bytes))
    (holds : Holds c w bs pending) (crash : Bytes)
    (agree : take w.flushed_offset crash ≡ take w.flushed_offset w.file) where
  durable : take w.flushed_offset w.file ≡ holds.pre ++ encode_batches c bs
  durable =
      let front = holds.pre ++ encode_batches c bs in
      ap (take w.flushed_offset) (
        holds.file
        ∙ sym
            (append_assoc holds.pre (encode_batches c bs) (encode_records c pending ++ holds.rest)))
      ∙ take-behind front (encode_records c pending ++ holds.rest) w.flushed_offset (
          omega
            (arith, length-append holds.pre (encode_batches c bs), holds.start, holds.committed))

  crash-split : crash ≡ holds.pre ++ (encode_batches c bs ++ drop w.flushed_offset crash)
  crash-split =
      sym (take-append-drop w.flushed_offset crash)
      ∙ (ap (λ l. l ++ drop w.flushed_offset crash) (agree ∙ durable)
          ∙ append_assoc holds.pre (encode_batches c bs) (drop w.flushed_offset crash))

  end-le : length holds.pre + length (encode_batches c bs) ≤ w.size
  end-le = omega (
    arith,
    ap length holds.file,
    holds.whole,
    length-append holds.pre (encode_batches c bs ++ (encode_records c pending ++ holds.rest)),
    length-append (encode_batches c bs) (encode_records c pending ++ holds.rest),
  )

  -- A file that agrees up to the flushed offset with that of a writer which holds batches, whatever
  -- the crash left behind this offset: the committed end that recovery finds is there or behind it.
  pub crash_keeps_flushed :
      (s : Recovered) × (recover c crash w.size w.start_offset ≡ some s)
      × (w.flushed_offset ≤ s.committed_offset)
      × (s.committed_offset ≤ w.size)
  crash_keeps_flushed =
      let (s, e, lo, hi) =
        recover_keeps_batches c bs crash holds.pre (drop w.flushed_offset crash) w.size crash-split
          holds.small end-le in
      (
        s,
        ap (recover c crash w.size) (sym holds.start) ∙ e,
        omega (arith, holds.start, holds.committed, lo),
        hi,
      )

  -- Where the crash left records of the unfinished batch behind the flushed offset, and then no
  -- valid record: the segment opens again, and the writer holds the same batches and no
  -- unfinished one, with the position of the last batch.
  pub reopen-Holds :
      (lost : List (Bytes × Bytes)) (tail : Bytes)
      → length crash ≡ w.size
      → w.start_offset < w.size
      → drop w.flushed_offset crash ≡ encode_records c lost ++ tail
      → All IsSmall lost
      → w.flushed_offset + length (encode_records c lost) ≤ w.size
      → valid_record c crash w.size (w.flushed_offset + length (encode_records c lost)) ≡ none
      → (w' : Writer) × (open_file c crash w.size w.start_offset ≡ some (ok w'))
        × Holds c w' bs []
        × (w'.last_position ≡ last_committed bs none)
  unfolding open_file
  reopen-Holds lost tail whole room e smalls reach stop =
      let end : length holds.pre + length (encode_batches c bs) ≡ w.flushed_offset =
        omega (arith, holds.start, holds.committed) in
      let r =
        committed_at (length holds.pre + length (encode_batches c bs)) (last_committed bs none) in
      let found : recover c crash w.size w.start_offset ≡ some r =
        ap (recover c crash w.size) (sym holds.start)
        ∙ recover_rolls_back c bs crash holds.pre (drop w.flushed_offset crash) w.size crash-split
            holds.small end-le lost tail e smalls
            (subst (λ n. n + length (encode_records c lost) ≤ w.size) (sym end) reach)
            (subst (λ n. valid_record c crash w.size (n + length (encode_records c lost)) ≡ none)
              (sym end) stop) in
      (
        opened crash w.size w.start_offset r,
        rw (lt→leb_false w.start_offset w.size room, found) refl,
        record {
          pre = holds.pre;
          rest = drop w.flushed_offset crash;
          file = crash-split;
          start = holds.start;
          reach = omega (arith, holds.start);
          whole = whole;
          small = holds.small;
          smalls = tt;
          aligned = refl;
          flushed = omega arith;
          committed = omega (arith, holds.start);
          clean = λ z. refl;
          encodable = default_max_record-le w.size w.start_offset;
        },
        refl,
      )
