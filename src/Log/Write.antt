-- ===== src/Log/Write.antt =====
-- The writes of SegmentSet::append_batch in crates/tephra/src/log/set.rs: the loop over the records, the
-- commit and the rewind.
use tephra.Prelude.{
  ℕ, ◌+◌, ◌⊎◌, ◌≤◌, ◌<◌, ◌≡◌, refl, sym, ap, ◌∙◌, Bool, true, false, List, [], ◌∷◌, ◌++◌,
  append-nil, append_assoc, if◌then◌else◌, leb, length, arith, Bool-cases, inl, inr,
}
use tephra.Prelude.Str.{Bytes}
use tephra.Log.{
  SegmentSet, Disk, Answer, taken, refused, tears, append_data, append_records, commit, rewind_to,
  append_and_commit, records_len, total_size, record_head_size,
}

-- The set with another state of the writer and the stream.
abbrev pub stream : SegmentSet → ℕ → List Bytes → Bool → SegmentSet
stream set offset pending torn = record set {
  write_offset = offset;
  pending = pending;
  torn = torn;
}

-- The first record leaves bytes behind although it fails.
abbrev pub tears_first : List Answer → Bool
tears_first [] = false
tears_first (taken ∷ answers) = false
tears_first (refused ∷ answers) = false
tears_first (tears ∷ answers) = true

-- How the loop ends: all records stand in the stream, or some do and the write offset has moved, or
-- none does and only the first may have left bytes behind.
abbrev Stopped : SegmentSet → List Answer → SegmentSet → Type 0
Stopped set answers next =
    ((offset : ℕ) × (pending : List Bytes) × (torn : Bool) × (next ≡ stream set offset pending torn)
      × (set.write_offset < offset))
    ⊎ ((next ≡ set) ⊎ ((next ≡ record set { torn = true }) × (tears_first answers ≡ true)))

abbrev all_in : SegmentSet → List Bytes → SegmentSet
all_in set records =
    stream set (set.write_offset + records_len records) (set.pending ++ records) set.torn

abbrev one_in : SegmentSet → Bytes → SegmentSet
one_in set r =
    stream set (set.write_offset + (record_head_size + length r)) (set.pending ++ r ∷ []) set.torn

all_in-cons :
    (set : SegmentSet) (r : Bytes) (records : List Bytes)
    → all_in (one_in set r) records ≡ all_in set (r ∷ records)
unfolding records_len
all_in-cons set r records =
    let offset : set.write_offset + (record_head_size + length r) + records_len records
        ≡ set.write_offset + (record_head_size + length r + records_len records) =
      omega arith in
    ap (λ n. stream set n ((set.pending ++ r ∷ []) ++ records) set.torn) offset
    ∙ ap
        (λ l.
          stream set (set.write_offset + (record_head_size + length r + records_len records)) l
            set.torn)
        (append_assoc set.pending (r ∷ []) records)

all_in-nil : (set : SegmentSet) → set ≡ all_in set []
unfolding records_len
all_in-nil set =
    let offset : set.write_offset ≡ set.write_offset + 0 = omega arith in
    ap (λ n. stream set n set.pending set.torn) offset
    ∙ ap (λ l. stream set (set.write_offset + 0) l set.torn) (sym (append-nil set.pending))

-- Once a record is in, the write offset has moved whatever follows.
moved :
    (set : SegmentSet) (r : Bytes) (answers first : List Answer) (next : SegmentSet)
    → Stopped (one_in set r) answers next
    → Stopped set first next
moved set r answers first next (inl (offset, pending, torn, e, h)) =
    inl (offset, pending, torn, e, omega arith)
moved set r answers first next (inr (inl e)) = inl (
  set.write_offset + (record_head_size + length r),
  set.pending ++ r ∷ [],
  set.torn,
  e,
  omega arith,
)
moved set r answers first next (inr (inr (e, t))) =
    inl (
      set.write_offset + (record_head_size + length r),
      set.pending ++ r ∷ [],
      true,
      e,
      omega arith,
    )

append_records-cases :
    (records : List Bytes) (set : SegmentSet) (answers : List Answer)
    → (append_records set answers records ≡ (all_in set records, true))
      ⊎ ((next : SegmentSet) × (append_records set answers records ≡ (next, false))
          × Stopped set answers next)
unfolding append_records append_data
append_records-cases [] set answers = inl (ap (λ x. (x, true)) (all_in-nil set))
append_records-cases (r ∷ records) set [] = elim (append_records-cases records (one_in set r) []) [
  | inl e ↦ inl (e ∙ ap (λ x. (x, true)) (all_in-cons set r records))
  | inr (next, e, s) ↦ inr (next, e, moved set r [] [] next s)
]
append_records-cases (r ∷ records) set (taken ∷ answers) =
    elim (append_records-cases records (one_in set r) answers) [
      | inl e ↦ inl (e ∙ ap (λ x. (x, true)) (all_in-cons set r records))
      | inr (next, e, s) ↦ inr (next, e, moved set r answers (taken ∷ answers) next s)
    ]
append_records-cases (r ∷ records) set (refused ∷ answers) = inr (set, refl, inr (inl refl))
append_records-cases (r ∷ records) set (tears ∷ answers) =
    inr (record set { torn = true }, refl, inr (inr (refl, refl)))

-- The set after the records and their marker.
abbrev pub committed : SegmentSet → List Bytes → SegmentSet
committed set records = record (stream set (set.write_offset + total_size records) [] set.torn) {
  file = if set.torn then set.file else set.file ++ (set.pending ++ records);
}

-- What the rewind leaves: the state before the batch, or what the file system keeps it from undoing.
pub record Undone (set back : SegmentSet) (disk : Disk) : Type 0 where
  pub offset : ℕ
  pub pending : List Bytes
  pub torn : Bool
  pub result : back ≡ stream set offset pending torn
  pub why : (back ≡ set) ⊎ ((tears_first disk.appends ≡ true) ⊎ (disk.rewound ≡ false))

Stopped-Undone :
    (set next : SegmentSet) (disk : Disk)
    → Stopped set disk.appends next
    → Undone set (rewind_to next disk.rewound set).0 disk
unfolding rewind_to
Stopped-Undone set next disk (inl (offset, pending, torn, e, h)) = elim (Bool-cases disk.rewound) [
  | inl y ↦ record {
    offset = set.write_offset;
    pending = set.pending;
    torn = set.torn;
    result = back_at y;
    why = inl (back_at y);
  }
  | inr n ↦ record {
    offset = offset;
    pending = pending;
    torn = torn;
    result =
        ap (λ x. (rewind_to x disk.rewound set).0) e
        ∙ let past : leb offset set.write_offset ≡ false = ground arith in rw (past, n) refl;
    why = inr (inr n);
  }
]
  where
    back_at : disk.rewound ≡ true → (rewind_to next disk.rewound set).0 ≡ set
    back_at y =
        ap (λ x. (rewind_to x disk.rewound set).0) e
        ∙ let past : leb offset set.write_offset ≡ false = ground arith in rw (past, y) refl
Stopped-Undone set next disk (inr (inl e)) =
    let same : (rewind_to next disk.rewound set).0 ≡ set =
      ap (λ x. (rewind_to x disk.rewound set).0) e
      ∙ let at : leb set.write_offset set.write_offset ≡ true = ground arith in rw at refl in
    record {
      offset = set.write_offset;
      pending = set.pending;
      torn = set.torn;
      result = same;
      why = inl same;
    }
Stopped-Undone set next disk (inr (inr (e, t))) = record {
  offset = set.write_offset;
  pending = set.pending;
  torn = true;
  result =
      ap (λ x. (rewind_to x disk.rewound set).0) e
      ∙ let at : leb set.write_offset set.write_offset ≡ true = ground arith in rw at refl;
  why = inr (inl t);
}

-- A commit leaves all of it durable, or fails with the write offset behind the records.
commit-cases :
    (set : SegmentSet) (marker : Answer) (synced : Bool) (r : Bytes) (records : List Bytes)
    → (commit (all_in set (r ∷ records)) marker synced ≡ (committed set (r ∷ records), true))
      ⊎ ((offset : ℕ) × (torn : Bool) × (commit (all_in set (r ∷ records)) marker synced
            ≡ (stream set offset (set.pending ++ r ∷ records) torn, false))
          × (set.write_offset < offset))
unfolding commit total_size records_len
commit-cases set refused synced r records =
    inr (set.write_offset + records_len (r ∷ records), set.torn, refl, omega arith)
commit-cases set tears synced r records =
    inr (set.write_offset + records_len (r ∷ records), true, refl, omega arith)
commit-cases set taken false r records =
    inr (set.write_offset + records_len (r ∷ records) + 17, set.torn, refl, omega arith)
commit-cases set taken true r records =
    let offset : set.write_offset
          + (record_head_size + length r + records_len records)
          + (record_head_size + 9)
        ≡ set.write_offset
          + (record_head_size + length r + records_len records + record_head_size + 9) =
      omega arith in
    inl (
      ap
        (λ n. (
          record (stream set n [] set.torn) {
            file = if set.torn then set.file else set.file ++ (set.pending ++ r ∷ records);
          },
          true,
        ))
        offset)

-- The closure succeeds with all records committed, or fails and the rewind undoes what it can.
pub append_and_commit-cases :
    (set : SegmentSet) (disk : Disk) (records : List Bytes)
    → 1 ≤ length records
    → (append_and_commit set disk records ≡ (committed set records, true))
      ⊎ ((after : SegmentSet) × (append_and_commit set disk records ≡ (after, false))
          × Undone set (rewind_to after disk.rewound set).0 disk)
unfolding append_and_commit
append_and_commit-cases set disk [] h = absurd (omega arith)
append_and_commit-cases set disk (r ∷ records) h =
    elim (append_records-cases (r ∷ records) set disk.appends) [
      | inr (next, e, s) ↦
          inr (next, rw (append_and_commit, e) refl, Stopped-Undone set next disk s)
      | inl e ↦ elim (commit-cases set disk.marker disk.committed r records) [
        | inl c ↦ inl (rw (append_and_commit, e) c)
        | inr (offset, torn, c, past) ↦ inr (
          stream set offset (set.pending ++ r ∷ records) torn,
          rw (append_and_commit, e) c,
          Stopped-Undone set (stream set offset (set.pending ++ r ∷ records) torn) disk
              (inl (offset, set.pending ++ r ∷ records, torn, refl, past)),
        )
      ]
    ]
