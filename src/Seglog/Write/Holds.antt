-- ===== src/Seglog/Write/Holds.antt =====
-- The writer of crates/seglog/src/write.rs against what it holds: a list of committed batches and the
-- records of a batch that has no marker yet.
use tephra.Prelude.{
  ℕ, ◌+◌, ◌≤◌, ◌≡◌, sym, ap, ◌∙◌, none, List, [], ◌∷◌, ◌++◌, append_assoc, append-nil, length,
  length-append, length-drop, drop, arith, All, false,
}
use tephra.Prelude.Str.{Bytes}
use tephra.Prelude.Le.{take-behind}
use tephra.Event.Layout.{drop-append}
use tephra.Seglog.{Crc32, record_bytes, record_head_size, max_record_len}
use tephra.Seglog.Recover.Committed.{
  Batch, encode_records, encode_batch, encode_batches, IsSmall, IsSmallBatch, length-record_bytes,
}
use tephra.Seglog.Write.{Writer, write_at, write_all}

pub record Holds (c : Crc32) (w : Writer) (bs : List Batch) (pending : List (Bytes × Bytes))
    : Type 0 where
  pub pre : Bytes
  pub rest : Bytes
  pub file : w.file ≡ pre ++ (encode_batches c bs ++ (encode_records c pending ++ rest))
  pub start : length pre ≡ w.start_offset
  pub reach :
      w.write_offset
      ≡ w.start_offset + length (encode_batches c bs) + length (encode_records c pending)
  pub whole : length w.file ≡ w.size
  pub small : All IsSmallBatch bs
  pub smalls : All IsSmall pending
  pub aligned : w.cursor ≡ w.write_offset
  pub flushed : w.flushed_offset ≤ w.write_offset
  pub committed : w.start_offset + length (encode_batches c bs) ≡ w.flushed_offset
  pub clean : w.dirty ≡ false → w.flushed_offset ≡ w.write_offset
  pub encodable : w.max_record ≤ max_record_len

pub write_at-behind :
    (pre rest bytes : Bytes) (at : ℕ)
    → at ≡ length pre
    → write_at (pre ++ rest) at bytes ≡ pre ++ (bytes ++ drop (length bytes) rest)
unfolding write_at
write_at-behind pre rest bytes at h =
    ap (λ l. l ++ (bytes ++ drop (at + length bytes) (pre ++ rest))) (take-behind pre rest at h)
    ∙ ap (λ l. pre ++ (bytes ++ l))
        (drop-append pre rest (at + length bytes) (length bytes) (omega arith))

pub length-write_at :
    (pre rest bytes : Bytes) (at : ℕ)
    → at ≡ length pre
    → length bytes ≤ length rest
    → length (write_at (pre ++ rest) at bytes) ≡ length (pre ++ rest)
length-write_at pre rest bytes at h k = rw (write_at-behind pre rest bytes at h) (
    omega (
      arith,
      length-append pre (bytes ++ drop (length bytes) rest),
      length-append bytes (drop (length bytes) rest),
      length-drop (length bytes) rest,
      length-append pre rest,
    ))

pub encode_records-snoc :
    (c : Crc32) (rs : List (Bytes × Bytes)) (header body : Bytes)
    → encode_records c (rs ++ (header, body) ∷ [])
      ≡ encode_records c rs ++ record_bytes c header body
encode_records-snoc c [] header body = append-nil (record_bytes c header body)
encode_records-snoc c ((h, b) ∷ rs) header body =
    ap (λ l. record_bytes c h b ++ l) (encode_records-snoc c rs header body)
    ∙ sym (append_assoc (record_bytes c h b) (encode_records c rs) (record_bytes c header body))

pub encode_batches-snoc :
    (c : Crc32) (bs : List Batch) (b : Batch)
    → encode_batches c (bs ++ b ∷ []) ≡ encode_batches c bs ++ encode_batch c b
encode_batches-snoc c [] b = append-nil (encode_batch c b)
encode_batches-snoc c (x ∷ bs) b =
    ap (λ l. encode_batch c x ++ l) (encode_batches-snoc c bs b)
    ∙ sym (append_assoc (encode_batch c x) (encode_batches c bs) (encode_batch c b))

pub All-snoc {ℓ κ} :
    {A : Type ℓ} (P : A → Type κ) (xs : List A) (x : A) → All P xs → P x → All P (xs ++ x ∷ [])
All-snoc P [] x h p = (p, tt)
All-snoc P (y ∷ xs) x h p = (h.0, All-snoc P xs x h.1 p)

-- The front of the file up to the cursor, and what a write of `bytes` there leaves.
module _ (c : Crc32) (w : Writer) (bs : List Batch) (pending : List (Bytes × Bytes))
    (holds : Holds c w bs pending) where
  abbrev pub front : Bytes
  front = holds.pre ++ (encode_batches c bs ++ encode_records c pending)

  pub file-front : w.file ≡ front ++ holds.rest
  file-front =
      holds.file
      ∙ (ap (λ l. holds.pre ++ l)
            (sym (append_assoc (encode_batches c bs) (encode_records c pending) holds.rest))
          ∙ sym
              (append_assoc holds.pre (encode_batches c bs ++ encode_records c pending) holds.rest))

  pub length-front : length front ≡ w.write_offset
  length-front = omega (
    arith,
    length-append holds.pre (encode_batches c bs ++ encode_records c pending),
    length-append (encode_batches c bs) (encode_records c pending),
    holds.start,
    holds.reach,
  )

  pub written :
      (bytes : Bytes)
      → write_at w.file w.cursor bytes
        ≡ holds.pre
          ++ (encode_batches c bs
              ++ (encode_records c pending ++ (bytes ++ drop (length bytes) holds.rest)))
  written bytes =
      ap (λ l. write_at l w.cursor bytes) file-front
      ∙ (write_at-behind front holds.rest bytes w.cursor (holds.aligned ∙ sym length-front)
          ∙ (append_assoc holds.pre (encode_batches c bs ++ encode_records c pending)
                (bytes ++ drop (length bytes) holds.rest)
              ∙ ap (λ l. holds.pre ++ l)
                  (append_assoc (encode_batches c bs) (encode_records c pending)
                    (bytes ++ drop (length bytes) holds.rest))))

  pub length-written :
      (bytes : Bytes)
      → w.write_offset + length bytes ≤ w.size
      → length (write_at w.file w.cursor bytes) ≡ w.size
  length-written bytes fits =
      ap (λ l. length (write_at l w.cursor bytes)) file-front
      ∙ (length-write_at front holds.rest bytes w.cursor (holds.aligned ∙ sym length-front) (
            omega (
              arith,
              length-append front holds.rest,
              ap length file-front,
              length-front,
              holds.whole,
            ))
          ∙ (ap length (sym file-front) ∙ holds.whole))

-- A writer that has just appended a record.
abbrev pub appended : Crc32 → Writer → Bytes → Bytes → Writer
appended c w header body =
    let written = write_all none w (record_bytes c header body) in
    record written {
      write_offset = w.write_offset + (record_head_size + length header + length body);
    }

pub appended-Holds :
    (c : Crc32) (w : Writer) (bs : List Batch) (pending : List (Bytes × Bytes))
    (header body : Bytes)
    → Holds c w bs pending
    → 8 + length header + length body ≤ w.max_record
    → w.write_offset + (8 + length header + length body) ≤ w.size
    → Holds c (appended c w header body) bs (pending ++ (header, body) ∷ [])
unfolding write_all
appended-Holds c w bs pending header body holds small fits =
    let bytes = record_bytes c header body in
    let len = length-record_bytes c header body in
    let snoc = encode_records-snoc c pending header body in
    record {
      pre = holds.pre;
      rest = drop (length bytes) holds.rest;
      file =
          written c w bs pending holds bytes
          ∙ ap (λ l. holds.pre ++ (encode_batches c bs ++ l))
              (sym (append_assoc (encode_records c pending) bytes (drop (length bytes) holds.rest))
                ∙ ap (λ l. l ++ drop (length bytes) holds.rest) (sym snoc));
      start = holds.start;
      reach =
          omega (
            arith,
            holds.reach,
            ap length snoc,
            length-append (encode_records c pending) bytes,
            len,
          );
      whole = length-written c w bs pending holds bytes (omega (arith, len));
      small = holds.small;
      smalls =
          All-snoc IsSmall pending (header, body) holds.smalls (omega (arith, holds.encodable));
      aligned = omega (arith, holds.aligned, len);
      flushed = omega (arith, holds.flushed);
      committed = holds.committed;
      clean = λ e. absurd (cc e);
      encodable = holds.encodable;
    }
