-- ===== src/Log/Scan.antt =====
-- SegmentSet::scan_after of crates/tephra/src/log/set.rs reads the log as one sequence of records.
use tephra.Prelude.{
  ℕ, zero, suc, false, ◌+◌, ◌-◌, ◌≤◌, ◌<◌, ◌≡◌, refl, sym, ap, ◌∙◌, subst, List, [], ◌∷◌, ◌++◌, ltb,
  length, length-append, drop, keep, arith, Bool-cases, inl, inr, lt→ltb, le→ltb_false, length-drop,
}
use tephra.Prelude.Str.{Bytes}
use tephra.Prelude.Result.{ok}
use tephra.Types.Position.{Position, next, next-eq, sub, sub-eq, saturating_add, u64_mod}
use tephra.Log.{Segment, SegmentSet, segments, all_records, emit, scan, scan_after, last_position}
use tephra.Log.Locate.{NonFalling, owner_on, locate-owner_on}

-- Each segment starts where the one before it ends.
abbrev pub Contiguous : List Segment → Position → Position → Type 0
Contiguous [] at end = at ≡ end
Contiguous (s ∷ rest) at end = (s.base_position ≡ at) × Contiguous rest (at + length s.records) end

pub record IsLog (set : SegmentSet) : Type 0 where
  pub contiguous : Contiguous (segments set) 1 set.next_position
  pub small : set.next_position < u64_mod
  pub offset : set.write_offset ≤ set.config.segment_size
  pub header : set.config.header_size ≤ set.config.segment_size
  -- The file has what the in-memory view has, and nothing stands behind its last marker.
  pub file : set.file ≡ set.active.records
  pub pending : set.pending ≡ []
  pub torn : set.torn ≡ false

-- The records at their positions, from `at` on.
abbrev pub placed : Position → List Bytes → List (Position × Bytes)
placed at [] = []
placed at (r ∷ records) = (at, r) ∷ placed (suc at) records

pub Contiguous-end :
    (segs : List Segment) (at end : Position)
    → Contiguous segs at end
    → end ≡ at + length (all_records segs)
Contiguous-end [] at end h = omega (arith, h)
Contiguous-end (s ∷ rest) at end h = omega (
  arith,
  Contiguous-end rest (at + length s.records) end h.1,
  length-append s.records (all_records rest),
)

owner_on-before :
    (segs : List Segment) (at end from : Position)
    → Contiguous segs at end
    → from < at
    → owner_on segs from ≡ []
owner_on-before [] at end from h k = refl
owner_on-before (s ∷ rest) at end from h k =
    ground (arith, h.0, owner_on-before rest (at + length s.records) end from h.1 (omega arith))

drop-append_past :
    (n : ℕ) (xs ys : List Bytes) → length xs ≤ n → drop n (xs ++ ys) ≡ drop (n - length xs) ys
drop-append_past n [] ys h = ap (λ m. drop m ys) (let k : n ≡ n - 0 = omega arith in k)
drop-append_past zero (x ∷ xs) ys h = absurd (omega arith)
drop-append_past (suc n) (x ∷ xs) ys h =
    drop-append_past n xs ys (omega arith)
    ∙ ap (λ m. drop m ys) (let k : n - length xs ≡ suc n - suc (length xs) = omega arith in k)

drop-append_within :
    (n : ℕ) (xs ys : List Bytes) → n ≤ length xs → drop n (xs ++ ys) ≡ drop n xs ++ ys
drop-append_within zero xs ys h = refl
drop-append_within (suc n) [] ys h = absurd (omega arith)
drop-append_within (suc n) (x ∷ xs) ys h = drop-append_within n xs ys (omega arith)

-- What locating a position that the segments cover finds.
pub record Located (segs : List Segment) (at from : Position) : Type 0 where
  pub owner : Segment
  pub rest : List Segment
  pub found : owner_on segs from ≡ owner ∷ rest
  pub starts : owner.base_position ≤ from
  pub holds : from < owner.base_position + length owner.records
  pub content :
      drop (from - owner.base_position) owner.records ++ all_records rest
      ≡ drop (from - at) (all_records segs)

pub owner_on-covers :
    (segs : List Segment) (at end from : Position)
    → Contiguous segs at end
    → at ≤ from
    → from < end
    → Located segs at from
owner_on-covers [] at end from h k l = absurd (omega (arith, h))
owner_on-covers (s ∷ rest) at end from h k l =
    elim (Bool-cases (ltb from (at + length s.records))) [
      | inl here ↦
          let later : owner_on rest from ≡ [] =
            owner_on-before rest (at + length s.records) end from h.1 (ground (arith, here)) in
          record {
            owner = s;
            rest = rest;
            found = ground (arith, later, h.0, k);
            starts = omega (arith, h.0);
            holds = ground (arith, here, h.0);
            content =
                ap (λ n. drop (from - n) s.records ++ all_records rest) h.0
                ∙ sym (
                    drop-append_within (from - at) s.records (all_records rest)
                      (ground (arith, here)));
          }
      | inr past ↦
          let r =
            owner_on-covers rest (at + length s.records) end from h.1 (ground (arith, past)) l in
          record {
            owner = r.owner;
            rest = r.rest;
            found = ground (arith, r.found);
            starts = r.starts;
            holds = r.holds;
            content =
                let shift : from - (at + length s.records) ≡ from - at - length s.records =
                  omega arith in
                r.content
                ∙ ap (λ n. drop n (all_records rest)) shift
                ∙ sym (
                    drop-append_past (from - at) s.records (all_records rest)
                      (ground (arith, past)));
          }
    ]

emit-placed :
    (records : List Bytes) (at upto : Position)
    → at + length records ≡ suc upto
    → upto + 1 < u64_mod
    → emit at upto records ≡ placed at records
unfolding emit
emit-placed [] at upto h k = refl
emit-placed (r ∷ records) at upto h k =
    let step : next at ≡ suc at = next-eq at (omega arith) ∙ omega arith in
    ground (
      arith,
      step,
      ap (λ n. emit n upto records) step,
      emit-placed records (suc at) upto (omega arith) k,
    )

keep-placed_all :
    (records : List Bytes) (at pos : Position)
    → pos < at
    → keep (λ (r : Position × Bytes). ltb pos r.0) (placed at records) ≡ placed at records
keep-placed_all [] at pos h = refl
keep-placed_all (r ∷ records) at pos h =
    rw (lt→ltb pos at h)
      (ap (λ l. (at, r) ∷ l) (keep-placed_all records (suc at) pos (omega arith)))

keep-placed :
    (records : List Bytes) (n at pos : Position)
    → at + n ≡ pos + 1
    → keep (λ (r : Position × Bytes). ltb pos r.0) (placed at records)
      ≡ placed (pos + 1) (drop n records)
keep-placed records zero at pos h =
    let same : at ≡ pos + 1 = omega arith in
    keep-placed_all records at pos (omega arith) ∙ ap (λ m. placed m records) same
keep-placed [] (suc n) at pos h = refl
keep-placed (r ∷ records) (suc n) at pos h =
    rw (le→ltb_false pos at (omega arith)) (keep-placed records n (suc at) pos (omega arith))

drop-past : (n : ℕ) (records : List Bytes) → length records ≤ n → drop n records ≡ []
drop-past zero [] h = refl
drop-past (suc n) [] h = refl
drop-past zero (r ∷ records) h = absurd (omega arith)
drop-past (suc n) (r ∷ records) h = drop-past n records (omega arith)

pub Contiguous-NonFalling :
    (segs : List Segment) (low at end : Position)
    → Contiguous segs at end
    → low ≤ at
    → NonFalling low segs
Contiguous-NonFalling [] low at end h k = tt
Contiguous-NonFalling (s ∷ rest) low at end h k = (
  omega (arith, h.0),
  Contiguous-NonFalling rest s.base_position (at + length s.records) end h.1 (omega (arith, h.0)),
)

scan-within :
    (sealed : List Segment) (active : Segment) (from upto : Position)
    → Contiguous (sealed ++ active ∷ []) 1 (suc upto)
    → 1 ≤ from
    → from ≤ upto
    → upto + 1 < u64_mod
    → scan sealed active from upto
      ≡ ok (placed from (drop (from - 1) (all_records (sealed ++ active ∷ []))))
unfolding scan
scan-within sealed active from upto h k l small =
    let segs = sealed ++ active ∷ [] in
    let r = owner_on-covers segs 1 (suc upto) from h k (omega arith) in
    let (idx, located, there) =
      locate-owner_on sealed active 1 from r.owner r.rest
        (Contiguous-NonFalling segs 1 1 (suc upto) h (omega arith)) k r.found in
    let local : sub from r.owner.base_position ≡ from - r.owner.base_position =
      sub-eq from r.owner.base_position r.starts (omega arith) in
    let rest : length (drop (from - 1) (all_records segs)) ≡ suc upto - from =
      omega
        (arith, length-drop (from - 1) (all_records segs), Contiguous-end segs 1 (suc upto) h) in
    let emitted =
      emit-placed (drop (from - 1) (all_records segs)) from upto (omega (arith, rest)) small in
    ground (arith, located, there, r.starts, r.holds, local, ap (emit from upto) r.content, emitted)

-- On a well-formed set the scan after a position does not fail and yields every later record of
-- the log, in order and each at its position, whichever segments they stand in.
pub scan_after-eq-placed :
    (set : SegmentSet) (pos : Position)
    → IsLog set
    → scan_after set pos
      ≡ ok (keep (λ (r : Position × Bytes). ltb pos r.0) (placed 1 (all_records (segments set))))
unfolding scan_after saturating_add last_position scan
scan_after-eq-placed set pos v =
    let total = Contiguous-end (segments set) 1 set.next_position v.contiguous in
    let last : sub set.next_position 1 ≡ set.next_position - 1 =
      sub-eq set.next_position 1 (omega (arith, total)) v.small in
    elim (Bool-cases (ltb pos (set.next_position - 1))) [
      | inl within ↦
          let from : saturating_add pos 1 ≡ pos + 1 = ground (arith, within, v.small) in
          let end : suc (set.next_position - 1) ≡ set.next_position = omega (arith, total) in
          let found =
            scan-within set.sealed set.active (pos + 1) (set.next_position - 1)
              (subst (Contiguous (segments set) 1) (sym end) v.contiguous) (omega arith)
              (ground (arith, within)) (omega (arith, total, v.small)) in
          let shift : pos + 1 - 1 ≡ pos = omega arith in
          ap (λ n. scan set.sealed set.active n (sub set.next_position 1)) from
          ∙ ap (scan set.sealed set.active (pos + 1)) last
          ∙ found
          ∙ ap (λ n. ok (placed (pos + 1) (drop n (all_records (segments set))))) shift
          ∙ ap (λ l. ok l) (sym (keep-placed (all_records (segments set)) pos 1 pos (omega arith)))
      | inr past ↦
          let none_left : drop pos (all_records (segments set)) ≡ [] =
            drop-past pos (all_records (segments set)) (ground (arith, past, total)) in
          ground (
            arith,
            past,
            v.small,
            last,
            keep-placed (all_records (segments set)) pos 1 pos (omega arith),
            none_left,
          )
    ]
