-- ===== src/Log/Accepts.antt =====
-- When SegmentSet::append_batch in crates/tephra/src/log/set.rs takes a batch.
use tephra.Prelude.{
  ◌⊎◌, ◌≤◌, ◌<◌, ◌≡◌, refl, Bool, true, false, ◌&&◌, List, [], ◌∷◌, all, is_empty, ltb,
  ltb_false→le, arith, Bool-cases, inl, inr,
}
use tephra.Prelude.Str.{Bytes}
use tephra.Prelude.Result.{Result, ok, err, Result-cases}
use tephra.Types.Position.{PositionRange}
use tephra.Log.{
  SegmentSet, LogError, Disk, Answer, taken, refused, tears, append_data, append_records, commit,
  append_and_commit, write_batch, append_batch, rollover, check_records, total_size,
  segment_capacity, remaining_bytes,
}

abbrev is_taken : Answer → Bool
is_taken taken = true
is_taken refused = false
is_taken tears = false

-- The file system answers no part of an append with an error.
abbrev pub works : Disk → Bool
works disk =
    disk.synced
    && (disk.created && (all is_taken disk.appends && (is_taken disk.marker && disk.committed)))

-- The batch passes the checks.
abbrev pub Sound : SegmentSet → List Bytes → Type 0
Sound set records =
    (is_empty records ≡ false)
    × (check_records set.config records ≡ ok tt)
    × (total_size records ≤ segment_capacity set)

-- It is refused by one of them.
abbrev pub Refused : SegmentSet → List Bytes → LogError → Type 0
Refused set records e =
    (is_empty records ≡ true)
    ⊎ ((check_records set.config records ≡ err e) ⊎ (segment_capacity set < total_size records))

-- What the result says of the batch and of the file system.
abbrev pub Accounted : SegmentSet → Disk → List Bytes → Result LogError PositionRange → Type 0
Accounted set disk records (ok range) = Sound set records
Accounted set disk records (err e) = Refused set records e ⊎ (works disk ≡ false)

append_records-works :
    (records : List Bytes) (set : SegmentSet) (answers : List Answer)
    → all is_taken answers ≡ true
    → (append_records set answers records).1 ≡ true
unfolding append_records append_data
append_records-works [] set answers h = refl
append_records-works (r ∷ records) set [] h =
    append_records-works records (append_data set taken r).0 [] refl
append_records-works (r ∷ records) set (taken ∷ answers) h =
    append_records-works records (append_data set taken r).0 answers h
append_records-works (r ∷ records) set (refused ∷ answers) h = cc
append_records-works (r ∷ records) set (tears ∷ answers) h = cc

commit-works :
    (set : SegmentSet) (marker : Answer) (synced : Bool)
    → is_taken marker ≡ true
    → synced ≡ true
    → (commit set marker synced).1 ≡ true
unfolding commit
commit-works set taken true h k = refl
commit-works set taken false h k = cc
commit-works set refused synced h k = cc
commit-works set tears synced h k = cc

append_and_commit-works :
    (set : SegmentSet) (disk : Disk) (records : List Bytes)
    → works disk ≡ true
    → (append_and_commit set disk records).1 ≡ true
unfolding append_and_commit
append_and_commit-works set disk records h =
    let done = append_records-works records set disk.appends (ground (arith, h)) in
    rw done (
      commit-works (append_records set disk.appends records).0 disk.marker disk.committed
        (ground (arith, h)) (ground (arith, h)))

write_batch-works :
    (set : SegmentSet) (disk : Disk) (records : List Bytes)
    → works disk ≡ true
    → (range : PositionRange) × ((write_batch set disk records).1 ≡ ok range)
unfolding write_batch
write_batch-works set disk records h = rw (append_and_commit-works set disk records h) (_, refl)

rollover-works :
    (set : SegmentSet) (disk : Disk)
    → works disk ≡ true
    → (mid : SegmentSet) × (rollover set disk ≡ ok mid)
unfolding rollover
rollover-works set disk h =
    let synced : disk.synced ≡ true = ground (arith, h) in
    let created : disk.created ≡ true = ground (arith, h) in rw (synced, created) (_, refl)

account :
    (set : SegmentSet) (disk : Disk) (records : List Bytes) (r : Result LogError PositionRange)
    → Sound set records
    → (works disk ≡ true → (range : PositionRange) × (r ≡ ok range))
    → Accounted set disk records r
account set disk records (ok range) s h = s
account set disk records (err e) s h = elim (Bool-cases (works disk)) [
  | inl y ↦ let (range, same) = h y in cc
  | inr n ↦ inr n
]

pub append_batch-Accounted :
    (set : SegmentSet) (disk : Disk) (records : List Bytes)
    → Accounted set disk records (append_batch set disk records).1
unfolding append_batch
append_batch-Accounted set disk records = elim (Bool-cases (is_empty records)) [
  | inl a ↦ rw a (inl (inl a))
  | inr a ↦ elim (Result-cases (check_records set.config records)) [
    | inr (e, b) ↦ rw (a, b) (inl (inr (inl b)))
    | inl (u, b) ↦ elim (Bool-cases (ltb (segment_capacity set) (total_size records))) [
      | inl c ↦ rw (a, b, c) (inl (inr (inr (ground (arith, c)))))
      | inr c ↦
          let sound : Sound set records =
            (a, b, ltb_false→le (segment_capacity set) (total_size records) c) in
          elim (Bool-cases (ltb (remaining_bytes set) (total_size records))) [
            | inr d ↦
                rw (a, b, c, d)
                  (account set disk records (write_batch set disk records).1 sound
                    (write_batch-works set disk records))
            | inl d ↦ elim (Result-cases (rollover set disk)) [
              | inr (e, r) ↦
                  rw (a, b, c, d, r)
                    (account set disk records (err e) sound
                      (λ h. let (mid, fine) = rollover-works set disk h in absurd (cc (fine, r))))
              | inl (mid, r) ↦
                  rw (a, b, c, d, r)
                    (account set disk records (write_batch mid disk records).1 sound
                      (write_batch-works mid disk records))
            ]
          ]
    ]
  ]
]
