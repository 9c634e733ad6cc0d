-- ===== src/Seglog/Write/Batches.antt =====
-- Writer::append_batch of crates/seglog/src/write.rs: what it writes, what recovery finds after it, and
-- what Writer::rewind_to undoes.
use tephra.Prelude.{
  ℕ, ◌+◌, ◌-◌, ◌^◌, ◌≤◌, ◌<◌, ◌≡◌, refl, sym, ap, ◌∙◌, subst, ◌⊎◌, inl, inr, Option, none, some,
  List, [], ◌∷◌, ◌++◌, append_assoc, append-nil, length, length-append, drop, arith, true, false,
  Bool-cases, ltb, leb, ltb_false→le, leb→le,
}
use tephra.Prelude.Str.{Bytes}
use tephra.Prelude.Result.{ok, err}
use tephra.Seglog.{Crc32, marker_bytes, record_head_size, commit_marker_payload}
use tephra.Seglog.Recover.Committed.{
  Batch, encode_records, encode_batch, encode_batches, IsSmallBatch, length-marker_bytes,
}
use tephra.Seglog.Write.{
  Writer, WriteError, segment_full, record_too_large, write_all, append, write_commit_marker, sync,
  commit, append_all, append_batch, rewind_to,
}
use tephra.Seglog.Write.Holds.{
  Holds, appended, appended-Holds, written, length-written, encode_batches-snoc, All-snoc,
}

-- The size of the records on disk, and whether one of them is over a limit.
abbrev pub encoded_size : List (Bytes × Bytes) → ℕ
encoded_size [] = 0
encoded_size ((header, body) ∷ rs) = 8 + length header + length body + encoded_size rs

abbrev pub AnyOver : ℕ → List (Bytes × Bytes) → Type 0
AnyOver limit [] = ⊥
AnyOver limit ((header, body) ∷ rs) = (limit < 8 + length header + length body) ⊎ AnyOver limit rs

abbrev pub AllWithin : ℕ → List (Bytes × Bytes) → Type 0
AllWithin limit [] = Unit
AllWithin limit ((header, body) ∷ rs) =
    (8 + length header + length body ≤ limit) × AllWithin limit rs

-- Each record is within the writer's limit, and all of them fit the segment with the marker.
abbrev pub Fits : Writer → List (Bytes × Bytes) → Type 0
Fits w rs = AllWithin w.max_record rs × (w.write_offset + encoded_size rs + 17 ≤ w.size)

abbrev pub Unfit : Writer → List (Bytes × Bytes) → Type 0
Unfit w rs = AnyOver w.max_record rs ⊎ (w.size < w.write_offset + encoded_size rs + 17)

-- Without a fault an append is refused by a guard, or appends.
append_cases :
    (c : Crc32) (w : Writer) (header body : Bytes)
    → ((e : WriteError) × (append c none w header body ≡ (w, err e))
        × ((w.max_record < 8 + length header + length body)
            ⊎ (w.size < w.write_offset + (8 + length header + length body))))
      ⊎ ((8 + length header + length body ≤ w.max_record)
          × (w.write_offset + (8 + length header + length body) ≤ w.size)
          × (append c none w header body
              ≡ (appended c w header body, ok (w.write_offset, 8 + length header + length body))))
unfolding append
append_cases c w header body =
    let total = record_head_size + length header + length body in
    elim (Bool-cases (ltb w.max_record total)) [
      | inl a ↦ inl (record_too_large total w.max_record, rw a refl, inl (ground arith))
      | inr a ↦ elim (Bool-cases (ltb w.size (w.write_offset + total))) [
        | inl b ↦ inl (
          segment_full w.write_offset (w.size - w.write_offset),
          rw (a, b) refl,
          inr (ground arith),
        )
        | inr b ↦ inr (ltb_false→le _ _ a, ltb_false→le _ _ b, rw (a, b) refl)
      ]
    ]

-- A writer that has just committed.
abbrev committed : Crc32 → Writer → ℕ → Writer
committed c w position =
    let marked = write_all none w (marker_bytes c position) in
    record marked {
      write_offset = w.write_offset + (record_head_size + commit_marker_payload);
      last_position = some position;
      flushed_offset = w.write_offset + (record_head_size + commit_marker_payload);
      dirty = false;
    }

commit_cases :
    (c : Crc32) (w : Writer) (position : ℕ)
    → ((e : WriteError) × (commit c none true w position ≡ (w, err e))
        × (w.size < w.write_offset + 17))
      ⊎ ((w.write_offset + 17 ≤ w.size)
          × (commit c none true w position ≡ (committed c w position, ok (w.write_offset + 17))))
unfolding commit write_commit_marker sync write_all
commit_cases c w position = elim (Bool-cases (ltb w.size (w.write_offset + 17))) [
  | inl b ↦ inl (
    segment_full w.write_offset (w.size - w.write_offset),
    rw (b, commit, write_commit_marker) refl,
    ground arith,
  )
  | inr b ↦ inr (ltb_false→le _ _ b, rw (b, commit, write_commit_marker) refl)
]

committed-Holds :
    (c : Crc32) (w : Writer) (bs : List Batch) (pending : List (Bytes × Bytes)) (position : ℕ)
    → Holds c w bs pending
    → position < 2 ^ 64
    → w.write_offset + 17 ≤ w.size
    → Holds c
        (committed c w position)
        (bs ++ record { records = pending; position = position } ∷ [])
        []
unfolding write_all
committed-Holds c w bs pending position holds small fits =
    let b : Batch = record { records = pending; position = position } in
    let bytes = marker_bytes c position in
    let snoc = encode_batches-snoc c bs b in
    let len = length-marker_bytes c position in
    let reach : w.write_offset + 17 ≡ w.start_offset + length (encode_batches c (bs ++ b ∷ [])) =
      omega (
        arith,
        holds.reach,
        ap length snoc,
        length-append (encode_batches c bs) (encode_batch c b),
        length-append (encode_records c pending) bytes,
        len,
      ) in
    record {
      pre = holds.pre;
      rest = drop (length bytes) holds.rest;
      file =
          written c w bs pending holds bytes
          ∙ ap (λ l. holds.pre ++ l)
              (ap (λ l. encode_batches c bs ++ l)
                  (sym (
                    append_assoc (encode_records c pending) bytes (drop (length bytes) holds.rest)))
                ∙ (sym (
                      append_assoc (encode_batches c bs) (encode_batch c b)
                        (drop (length bytes) holds.rest))
                    ∙ ap (λ l. l ++ drop (length bytes) holds.rest) (sym snoc)));
      start = holds.start;
      reach = omega (arith, reach);
      whole = length-written c w bs pending holds bytes (omega (arith, len));
      small = All-snoc IsSmallBatch bs b holds.small (holds.smalls, small);
      smalls = tt;
      aligned = omega (arith, holds.aligned, len);
      flushed = omega arith;
      committed = sym reach;
      clean = λ e. refl;
      encodable = holds.encodable;
    }

-- The records of a batch, the writes of each of which are taken whole.
abbrev pub sound : List (Bytes × Bytes) → List (Option ℕ × Bytes × Bytes)
sound [] = []
sound ((header, body) ∷ rs) = (none, header, body) ∷ sound rs

-- Either all the records are appended, or some of them.
append_all-Holds :
    (c : Crc32) (rs : List (Bytes × Bytes)) (w : Writer) (bs : List Batch)
    (pending : List (Bytes × Bytes))
    → Holds c w bs pending
    → ((w' : Writer) × (append_all c w (sound rs) ≡ (w', ok tt))
        × (w'.start_offset ≡ w.start_offset)
        × AllWithin w.max_record rs
        × (w'.write_offset ≡ w.write_offset + encoded_size rs)
        × (w'.size ≡ w.size)
        × Holds c w' bs (pending ++ rs))
      ⊎ ((w' : Writer) × (e : WriteError) × (append_all c w (sound rs) ≡ (w', err e))
          × (w'.start_offset ≡ w.start_offset)
          × Unfit w rs
          × (some_of : List (Bytes × Bytes)) × Holds c w' bs (pending ++ some_of))
unfolding append_all
append_all-Holds c [] w bs pending holds = inl (
  w,
  refl,
  refl,
  tt,
  omega arith,
  refl,
  subst (λ p. Holds c w bs p) (sym (append-nil pending)) holds,
)
append_all-Holds c ((header, body) ∷ rs) w bs pending holds = elim (append_cases c w header body) [
  | inl (e, h, cause) ↦ inr (
    w,
    e,
    rw (h, append_all) refl,
    refl,
    elim cause [ inl o ↦ inl (inl o) | inr o ↦ inr (omega arith) ],
    [],
    subst (λ p. Holds c w bs p) (sym (append-nil pending)) holds,
  )
  | inr (a, b, h) ↦
      let more = appended c w header body in
      let holds' = appended-Holds c w bs pending header body holds a b in
      elim (append_all-Holds c rs more bs (pending ++ (header, body) ∷ []) holds') [
        | inl (w', q, z, ok_rest, o, sz, k) ↦ inl (
          w',
          rw (h, append_all) q,
          z,
          (a, ok_rest),
          omega (arith, o),
          sz,
          subst (λ p. Holds c w' bs p) (append_assoc pending ((header, body) ∷ []) rs) k,
        )
        | inr (w', e, q, z, cause, some_of, k) ↦ inr (
          w',
          e,
          rw (h, append_all) q,
          z,
          elim cause [ inl o ↦ inl (inr o) | inr o ↦ inr (omega (arith, o)) ],
          (header, body) ∷ some_of,
          subst (λ p. Holds c w' bs p) (append_assoc pending ((header, body) ∷ []) some_of) k,
        )
      ]
]

rewind_to-Holds :
    (c : Crc32) (w : Writer) (bs : List Batch) (pending : List (Bytes × Bytes)) (offset : ℕ)
    → Holds c w bs pending
    → offset ≡ w.flushed_offset
    → Holds c (rewind_to true w offset).0 bs []
unfolding rewind_to
rewind_to-Holds c w bs pending offset holds h = elim (Bool-cases (leb w.write_offset offset)) [
  | inl q ↦ rw q (record {
    pre = holds.pre;
    rest = encode_records c pending ++ holds.rest;
    file = holds.file;
    start = holds.start;
    reach = omega (arith, h, leb→le w.write_offset offset q, holds.flushed, holds.committed);
    whole = holds.whole;
    small = holds.small;
    smalls = tt;
    aligned = holds.aligned;
    flushed = holds.flushed;
    committed = holds.committed;
    clean = holds.clean;
    encodable = holds.encodable;
  })
  | inr q ↦ rw q (record {
    pre = holds.pre;
    rest = encode_records c pending ++ holds.rest;
    file = holds.file;
    start = holds.start;
    reach = omega (arith, h, holds.committed);
    whole = holds.whole;
    small = holds.small;
    smalls = tt;
    aligned = refl;
    flushed = omega (arith, h);
    committed = holds.committed;
    clean = λ e. sym h;
    encodable = holds.encodable;
  })
]

-- A writer that holds batches and no unfinished one, when every write and sync succeeds: if each
-- record is within the writer's limit and all of them fit the segment with the commit marker,
-- append_batch succeeds, then holds one batch more, of the given records and position, and its
-- returned write offset is the flushed offset. Otherwise it is refused, and rewinding to the offset
-- before the call gives a writer that holds the batches of before.
pub append_batch_outcome :
    (c : Crc32) (w : Writer) (bs : List Batch) (rs : List (Bytes × Bytes)) (position : ℕ)
    → Holds c w bs []
    → position < 2 ^ 64
    → (Fits w rs
        × (w' : Writer) × (append_batch c w (sound rs) none true position
            ≡ (w', ok w'.write_offset))
        × (w'.flushed_offset ≡ w'.write_offset)
        × Holds c w' (bs ++ record { records = rs; position = position } ∷ []) [])
      ⊎ (Unfit w rs
          × (w' : Writer) × (e : WriteError) × (append_batch c w (sound rs) none true position
              ≡ (w', err e))
          × Holds c (rewind_to true w' w.write_offset).0 bs [])
unfolding append_batch
append_batch_outcome c w bs rs position holds small =
    let mark : w.write_offset ≡ w.start_offset + length (encode_batches c bs) =
      omega (arith, holds.reach) in
    elim (append_all-Holds c rs w bs [] holds) [
      | inr (w', e, q, z, cause, some_of, k) ↦ inr (
        cause,
        w',
        e,
        rw (q, append_batch) refl,
        rewind_to-Holds c w' bs some_of w.write_offset k (omega (arith, mark, z, k.committed)),
      )
      | inl (next, q, z, within, at, sz, k) ↦ elim (commit_cases c next position) [
        | inl (e, h, full) ↦ inr (
          inr (omega (arith, full, at, sz)),
          next,
          e,
          rw (q, append_batch) h,
          rewind_to-Holds c next bs rs w.write_offset k (omega (arith, mark, z, k.committed)),
        )
        | inr (fits, h) ↦ inl (
          (within, omega (arith, fits, at, sz)),
          committed c next position,
          rw (q, append_batch) h,
          refl,
          committed-Holds c next bs rs position k small fits,
        )
      ]
    ]
