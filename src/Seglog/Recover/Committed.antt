-- ===== src/Seglog/Recover/Committed.antt =====
-- What recover of crates/seglog/src/write.rs makes of a file that a writer left: the committed batches
-- stand, and what comes behind the last marker is rolled back.
use tephra.Prelude.{
  ℕ, ◌+◌, ◌%◌, ◌^◌, ◌≤◌, ◌<◌, ◌≡◌, refl, sym, ap, ◌∙◌, Option, none, some, List, [], ◌∷◌, ◌++◌,
  append_assoc, length, length-append, arith, All,
}
use tephra.Prelude.Str.{Bytes}
use tephra.Prelude.Le.{to_le, of_le, of_le-to_le}
use tephra.Seglog.{
  Crc32, record_bytes, marker_bytes, length_of, commit_marker_payload, control_flag, batch_commit,
  max_record_len,
}
use tephra.Seglog.Frame.{framed, record_bytes-framed, marker_bytes-framed, length-framed}
use tephra.Seglog.Recover.{Recovered, valid_record, accept, recover}
use tephra.Seglog.Recover.Total.{
  recover_from, recover-recover_from, recover_from-step, recover_from-stop, recover_from_total,
}
use tephra.Seglog.Recover.Framed.{of_frame, valid_record-framed}

-- A record as the caller gave it: its header and its data. A batch with the position of its marker.
pub record Batch : Type 0 where
  pub records : List (Bytes × Bytes)
  pub position : ℕ

abbrev pub encode_records : Crc32 → List (Bytes × Bytes) → Bytes
encode_records c [] = []
encode_records c ((header, body) ∷ rs) = record_bytes c header body ++ encode_records c rs

abbrev pub encode_batch : Crc32 → Batch → Bytes
encode_batch c b = encode_records c b.records ++ marker_bytes c b.position

abbrev pub encode_batches : Crc32 → List Batch → Bytes
encode_batches c [] = []
encode_batches c (b ∷ bs) = encode_batch c b ++ encode_batches c bs

-- The length of a record fits its field, and the position a u64.
abbrev pub IsSmall : Bytes × Bytes → Type 0
IsSmall r = length r.0 + length r.1 ≤ max_record_len

abbrev pub IsSmallBatch : Batch → Type 0
IsSmallBatch b = All IsSmall b.records × (b.position < 2 ^ 64)

pub length-record_bytes :
    (c : Crc32) (header body : Bytes)
    → length (record_bytes c header body) ≡ 8 + (length header + length body)
length-record_bytes c header body = omega (
  arith,
  ap length (record_bytes-framed c header body),
  length-framed c ((length header + length body) % 2 ^ 32) (header ++ body),
  length-append header body,
)

pub length-marker_bytes : (c : Crc32) (position : ℕ) → length (marker_bytes c position) ≡ 17
unfolding marker_bytes
length-marker_bytes c position = refl

-- A record leaves what was recovered as it is, and a marker commits what stands before its end.
accept-record :
    (raw at : ℕ) (payload : Bytes) (r : Recovered)
    → raw < 2 ^ 30
    → accept (of_frame raw at payload) r ≡ r
unfolding accept
accept-record raw at payload r h = ground arith

accept-marker :
    (at position : ℕ) (r : Recovered)
    → position < 2 ^ 64
    → accept
        (of_frame (commit_marker_payload + control_flag) at (batch_commit ∷ to_le 8 position))
        r
      ≡ record { committed_offset = at + 17; last_position = some position }
unfolding accept
accept-marker at position r h =
    ap (λ (n : ℕ). record { committed_offset = n; last_position = some (of_le (to_le 8 position)) })
      (let e : at + 8 + 9 ≡ at + 17 = omega arith in e)
    ∙ ap (λ (p : ℕ). record { committed_offset = at + 17; last_position = some p })
        (of_le-to_le 8 position (omega arith))

framed_round :
    (c : Crc32) (file pre rest bytes : Bytes) (raw : ℕ) (payload : Bytes) (size at end : ℕ)
    (r s : Recovered)
    → file ≡ pre ++ (bytes ++ rest)
    → at ≡ length pre
    → bytes ≡ framed c raw payload
    → raw < 2 ^ 31
    → length payload ≡ raw % 2 ^ 30
    → end ≡ at + 8 + length payload
    → end ≤ size
    → accept (of_frame raw at payload) r ≡ s
    → recover_from c file size at r ≡ recover_from c file size end s
framed_round c file pre rest bytes raw payload size at end r s f n e h l m fits a =
    recover_from-step c file size at r (of_frame raw at payload) (omega arith) (
      ap (λ b. valid_record c b size at) (f ∙ ap (λ b. pre ++ (b ++ rest)) e)
      ∙ valid_record-framed c pre rest raw payload size at n h l (omega arith))
    ∙ (ap (λ n. recover_from c file size n (accept (of_frame raw at payload) r))
          (let e : at + 8 + length_of raw ≡ end = omega arith in e)
        ∙ ap (λ t. recover_from c file size end t) a)

record_round :
    (c : Crc32) (file pre rest header body : Bytes) (size at : ℕ) (r : Recovered)
    → file ≡ pre ++ (record_bytes c header body ++ rest)
    → at ≡ length pre
    → IsSmall (header, body)
    → at + length (record_bytes c header body) ≤ size
    → recover_from c file size at r
      ≡ recover_from c file size (at + length (record_bytes c header body)) r
record_round c file pre rest header body size at r f n small fits =
    let raw = (length header + length body) % 2 ^ 32 in
    let below : raw < 2 ^ 30 = omega arith in
    framed_round c file pre rest (record_bytes c header body) raw (header ++ body) size at
      (at + length (record_bytes c header body)) r r f n (record_bytes-framed c header body)
      (omega arith) (omega (arith, length-append header body))
      (omega (arith, length-append header body, length-record_bytes c header body)) fits
      (accept-record raw at (header ++ body) r below)

marker_round :
    (c : Crc32) (file pre rest : Bytes) (position size at : ℕ) (r : Recovered)
    → file ≡ pre ++ (marker_bytes c position ++ rest)
    → at ≡ length pre
    → position < 2 ^ 64
    → at + 17 ≤ size
    → recover_from c file size at r
      ≡ recover_from c file size
          (at + 17)
          (record { committed_offset = at + 17; last_position = some position })
marker_round c file pre rest position size at r f n small fits =
    framed_round c file pre rest (marker_bytes c position) (commit_marker_payload + control_flag)
      (batch_commit ∷ to_le 8 position) size at (at + 17) r
      (record { committed_offset = at + 17; last_position = some position }) f n
      (marker_bytes-framed c position) (omega arith) (omega arith) (omega arith) fits
      (accept-marker at position r small)

-- The two ways to bracket a file around its next part.
regroup : (pre xs ys zs : Bytes) → pre ++ ((xs ++ ys) ++ zs) ≡ pre ++ (xs ++ (ys ++ zs))
regroup pre xs ys zs = ap (λ l. pre ++ l) (append_assoc xs ys zs)

moved : (pre xs ys zs : Bytes) → pre ++ ((xs ++ ys) ++ zs) ≡ (pre ++ xs) ++ (ys ++ zs)
moved pre xs ys zs = regroup pre xs ys zs ∙ sym (append_assoc pre xs (ys ++ zs))

-- The records of a batch are passed and commit nothing.
pub records_run :
    (c : Crc32) (rs : List (Bytes × Bytes)) (file pre rest : Bytes) (size at : ℕ) (r : Recovered)
    → file ≡ pre ++ (encode_records c rs ++ rest)
    → at ≡ length pre
    → All IsSmall rs
    → at + length (encode_records c rs) ≤ size
    → recover_from c file size at r ≡ recover_from c file size (at + length (encode_records c rs)) r
records_run c [] file pre rest size at r f n small fits =
    ap (λ m. recover_from c file size m r) (omega arith)
records_run c ((header, body) ∷ rs) file pre rest size at r f n small fits =
    let bytes = record_bytes c header body in
    let len = length-append bytes (encode_records c rs) in
    record_round c file pre (encode_records c rs ++ rest) header body size at r
      (f ∙ regroup pre bytes (encode_records c rs) rest) n small.0 (omega (arith, len))
    ∙ (records_run c rs file (pre ++ bytes) rest size (at + length bytes) r
          (f ∙ moved pre bytes (encode_records c rs) rest) (omega (arith, length-append pre bytes))
          small.1 (omega (arith, len))
        ∙ ap (λ m. recover_from c file size m r) (omega (arith, len)))

-- The position of the last of the batches, or what was there before them.
abbrev pub last_committed : List Batch → Option ℕ → Option ℕ
last_committed [] l = l
last_committed (b ∷ bs) l = last_committed bs (some b.position)

abbrev pub committed_at : ℕ → Option ℕ → Recovered
committed_at at l = record { committed_offset = at; last_position = l }

batches_run :
    (c : Crc32) (bs : List Batch) (file pre rest : Bytes) (size at : ℕ) (l : Option ℕ)
    → file ≡ pre ++ (encode_batches c bs ++ rest)
    → at ≡ length pre
    → All IsSmallBatch bs
    → at + length (encode_batches c bs) ≤ size
    → recover_from c file size at (committed_at at l)
      ≡ recover_from c file size
          (at + length (encode_batches c bs))
          (committed_at (at + length (encode_batches c bs)) (last_committed bs l))
batches_run c [] file pre rest size at l f n small fits =
    ap (λ m. recover_from c file size m (committed_at m l)) (omega arith)
batches_run c (b ∷ bs) file pre rest size at l f n small fits =
    let rs = encode_records c b.records in
    let mark = marker_bytes c b.position in
    let more = encode_batches c bs in
    let next = at + length rs + 17 in
    let whole = length-append (rs ++ mark) more in
    let one = length-append rs mark in
    let seventeen = length-marker_bytes c b.position in
    let end : next + length more ≡ at + length (encode_batches c (b ∷ bs)) =
      omega (arith, whole, one, seventeen) in
    let f' : file ≡ pre ++ (rs ++ (mark ++ (more ++ rest))) =
      f ∙ regroup pre (rs ++ mark) more rest ∙ regroup pre rs mark (more ++ rest) in
    records_run c b.records file pre (mark ++ (more ++ rest)) size at (committed_at at l) f' n
      small.0.0 (omega (arith, end))
    ∙ (marker_round c file (pre ++ rs) (more ++ rest) b.position size (at + length rs)
          (committed_at at l) (f' ∙ sym (append_assoc pre rs (mark ++ (more ++ rest))))
          (omega (arith, length-append pre rs)) small.0.1 (omega (arith, end))
        ∙ (batches_run c bs file (pre ++ (rs ++ mark)) rest size next (some b.position)
              (f ∙ moved pre (rs ++ mark) more rest)
              (omega (arith, length-append pre (rs ++ mark), one, seventeen)) small.1
              (omega (arith, end))
            ∙ ap
                (λ m.
                  recover_from c file size m (committed_at m (last_committed bs (some b.position))))
                end))

module _ (c : Crc32) (bs : List Batch) (file pre rest : Bytes) (size : ℕ)
    (holds : file ≡ pre ++ (encode_batches c bs ++ rest)) (small : All IsSmallBatch bs)
    (fits : length pre + length (encode_batches c bs) ≤ size) where
  -- In a file that holds the batches behind its header, whatever bytes follow: the committed end
  -- that recovery finds is at the end of the last batch or behind it.
  pub recover_keeps_batches :
      (s : Recovered) × (recover c file size (length pre) ≡ some s)
      × (length pre + length (encode_batches c bs) ≤ s.committed_offset)
      × (s.committed_offset ≤ size)
  recover_keeps_batches =
      let end = length pre + length (encode_batches c bs) in
      let (s, e, lo, hi) =
        recover_from_total c file size end end (committed_at end (last_committed bs none)) fits
          (omega arith) (omega arith) fits in
      (
        s,
        recover-recover_from c file size (length pre) (omega arith)
            ∙ (batches_run c bs file pre rest size (length pre) none holds refl small fits ∙ e),
        lo,
        hi,
      )

  -- Where the batches are followed by the records of a batch without its marker, and these by bytes
  -- that are no valid record: recovery finds the end of the last batch, with the position in its
  -- marker, and the unfinished batch is rolled back whole.
  pub recover_rolls_back :
      (pending : List (Bytes × Bytes)) (tail : Bytes)
      → rest ≡ encode_records c pending ++ tail
      → All IsSmall pending
      → length pre + length (encode_batches c bs) + length (encode_records c pending) ≤ size
      → valid_record c file size
          (length pre + length (encode_batches c bs) + length (encode_records c pending))
        ≡ none
      → recover c file size (length pre)
        ≡ some (committed_at (length pre + length (encode_batches c bs)) (last_committed bs none))
  recover_rolls_back pending tail e smalls reach stop =
      let done = encode_batches c bs in
      let end = length pre + length done in
      recover-recover_from c file size (length pre) (omega arith)
      ∙ (batches_run c bs file pre rest size (length pre) none holds refl small fits
          ∙ (records_run c pending file (pre ++ done) tail size end
                (committed_at end (last_committed bs none))
                (holds ∙ sym (append_assoc pre done rest) ∙ ap (λ l. (pre ++ done) ++ l) e)
                (sym (length-append pre done)) smalls reach
              ∙ recover_from-stop c file size (end + length (encode_records c pending))
                  (committed_at end (last_committed bs none)) reach stop))
