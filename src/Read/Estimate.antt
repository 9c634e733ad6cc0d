-- ===== src/Read/Estimate.antt =====
-- estimate_read of crates/tephra/src/read/mod.rs bounds what the read will find.
use tephra.Prelude.{
  ℕ, zero, suc, ◌*◌, ◌+◌, ◌-◌, ◌≤◌, ◌<◌, ◌≡◌, sym, ap, ◌∙◌, subst, List, [], ◌∷◌, ◌++◌, Option,
  none, some, false, leb, ◌==◌, length, length-append, take, drop, take-append-drop, keep, min, max,
  arith, Bool-cases, inl, inr,
}
use tephra.Prelude.Str.{Str}
use tephra.Types.Position.{Position, u64_max}
use tephra.Types.Query.{Query}
use tephra.Event.{EventRef}
use tephra.Matching.Merge.{IsWellFormed}
use tephra.Index.Interface.{SegmentIndex}
use tephra.Index.Search.Locals.{AscendingEvents}
use tephra.Index.Search.Oracle.{scan_from}
use tephra.Index.Tail.{view}
use tephra.Index.Tail.View.{view-TailOf, view-base}
use tephra.Index.Set.Held.{SegOf, concat, AscendingEvents-append_left, AscendingEvents-append_right}
use tephra.Index.Plan.{Access, estimate_matches, choose, saturating_mul}
use tephra.Index.Plan.Bound.{within, Counts, estimate_matches-bound, length-scan_window}
use tephra.Index.Plan.View.{view-Counts}
use tephra.Log.{Segment, all_records}
use tephra.Writer.Condition.Exact.{Decoded-AscendingEvents}
use tephra.Read.{Snapshot, effective_max, segment_width, estimate_sealed, estimate_read, access}
use tephra.Read.Window.{keep-append, scan_from-append}
use tephra.Read.Within.{SegmentsOf, SnapshotOf, within-take}

-- Every index gives upper bounds for its terms.
abbrev pub AllCount : List (Option SegmentIndex) → Type 0
AllCount [] = Unit
AllCount (none ∷ indexes) = AllCount indexes
AllCount (some idx ∷ indexes) =
    ((tag : Str) → Counts (idx.term_len tag) (idx.term_postings tag)) × AllCount indexes

module _ (q : Query) (after wm : Position) (wf : IsWellFormed q) (small : wm < u64_max) where
  -- The events from `at` on that the read finds.
  abbrev found : Position → List EventRef → List Position
  found at es = keep (within after wm) (scan_from q at es)

  length-found_append :
      (at : Position) (es fs : List EventRef)
      → length (found at (es ++ fs)) ≡ length (found at es) + length (found (at + length es) fs)
  length-found_append at es fs =
      ap (λ l. length (keep (within after wm) l)) (scan_from-append q at es fs)
      ∙ ap length
          (keep-append (within after wm) (scan_from q at es) (scan_from q (at + length es) fs))
      ∙ length-append (found at es) (found (at + length es) fs)

  found-width :
      (at : Position) (es : List EventRef) (hi : Position)
      → 1 ≤ at
      → min (at + length es - 1) wm ≤ hi
      → length (found at es) ≤ segment_width after at hi
  found-width at es hi h k = omega (arith, length-scan_window q after wm at es)

  found-estimate :
      (idx : SegmentIndex) (at : Position) (es : List EventRef) (hi : Position)
      → SegOf (some idx) at es
      → ((tag : Str) → Counts (idx.term_len tag) (idx.term_postings tag))
      → AscendingEvents es
      → 1 ≤ at
      → min (at + length es - 1) wm ≤ hi
      → hi ≤ wm
      → length (found at es) ≤ estimate_matches idx q (segment_width after at hi)
  found-estimate idx at es hi h counts asc a k l =
      subst (λ b. length (found b es) ≤ estimate_matches idx q (segment_width after at hi)) h.1
        (estimate_matches-bound idx es q after wm (segment_width after at hi) h.0 counts wf asc
          (omega (arith, small)) (omega (arith, h.1)))

  -- The sealed segments.
  estimate_sealed-bound :
      (segs : List Segment) (indexes : List (Option SegmentIndex)) (parts : List (List EventRef))
      (at : Position)
      → SegmentsOf segs indexes at parts
      → AllCount indexes
      → AscendingEvents (concat parts)
      → 1 ≤ at
      → (length (found at (concat parts)) ≤ (estimate_sealed segs indexes q after wm).0)
        × (length (found at (concat parts)) ≤ (estimate_sealed segs indexes q after wm).1)
  unfolding estimate_sealed scan_from
  estimate_sealed-bound [] indexes [] at h c asc a = (omega arith, omega arith)
  estimate_sealed-bound [] indexes (es ∷ parts) at h c asc a = absurd h
  estimate_sealed-bound (seg ∷ segs) [] parts at h c asc a = absurd h
  estimate_sealed-bound (seg ∷ segs) (i ∷ indexes) [] at h c asc a = absurd h
  estimate_sealed-bound (seg ∷ segs) (none ∷ indexes) (es ∷ parts) at h c asc a =
      let later = AscendingEvents-append_right es (concat parts) asc in
      let rest =
        estimate_sealed-bound segs indexes parts (at + length es) h.3 c later (omega arith) in
      let sum = length-found_append at es (concat parts) in
      let here = found-width at es (effective_max seg wm) a (omega (arith, h.0, h.1)) in
      elim (Bool-cases (length seg.records == 0)) [
        | inl empty ↦ rw empty (
          ground (arith, sum, rest.0, here, h.0, h.1, empty),
          ground (arith, sum, rest.1, here, h.0, h.1, empty),
        )
        | inr filled ↦ elim (Bool-cases (leb (effective_max seg wm) after)) [
          | inl past ↦
              rw (filled, past)
                (
                  ground (arith, sum, rest.0, here, h.0, past),
                  ground (arith, sum, rest.1, here, h.0, past),
                )
          | inr touched ↦
              rw (filled, touched)
                (omega (arith, sum, rest.0, here, h.0), omega (arith, sum, rest.1, here, h.0))
        ]
      ]
  estimate_sealed-bound (seg ∷ segs) (some idx ∷ indexes) (es ∷ parts) at h c asc a =
      let later = AscendingEvents-append_right es (concat parts) asc in
      let rest =
        estimate_sealed-bound segs indexes parts (at + length es) h.3 c.1 later (omega arith) in
      let sum = length-found_append at es (concat parts) in
      let here = found-width at es (effective_max seg wm) a (omega (arith, h.0, h.1)) in
      let based : length (found at es)
          ≤ estimate_matches idx q (segment_width after seg.base_position (effective_max seg wm)) =
        subst
          (λ b.
            length (found at es)
            ≤ estimate_matches idx q (segment_width after b (effective_max seg wm)))
          (sym h.0)
          (found-estimate idx at es (effective_max seg wm) h.2 c.0
            (AscendingEvents-append_left es (concat parts) asc) a (omega (arith, h.0, h.1))
            (omega arith)) in
      elim (Bool-cases (length seg.records == 0)) [
        | inl empty ↦ rw empty (
          ground (arith, sum, rest.0, here, h.0, h.1, empty),
          ground (arith, sum, rest.1, here, h.0, h.1, empty),
        )
        | inr filled ↦ elim (Bool-cases (leb (effective_max seg wm) after)) [
          | inl past ↦
              rw (filled, past)
                (
                  ground (arith, sum, rest.0, here, h.0, past),
                  ground (arith, sum, rest.1, here, h.0, past),
                )
          | inr touched ↦
              rw (filled, touched)
                (omega (arith, sum, rest.0, based), omega (arith, sum, rest.1, here, h.0))
        ]
      ]

  -- The active segment, through the view at the watermark.
  found-view :
      (s : Snapshot) (parts : List (List EventRef)) (tail : List EventRef)
      → SnapshotOf s parts tail
      → AscendingEvents tail
      → s.active_index.unindexable ≡ false
      → s.active_log.base_position ≤ wm
      → wm ≤ length (concat parts ++ tail)
      → length (found s.active_log.base_position tail)
        ≤ estimate_matches
            (view s.active_index wm)
            q
            (segment_width after s.active_log.base_position wm)
  found-view s parts tail v asc u h low =
      let t = s.active_index in
      let fed = v.active u in
      let total = length-append (concat parts) tail in
      let high : wm < t.base + length tail = omega (arith, fed.1, v.base, low, total) in
      let low' : t.base ≤ wm = omega (arith, fed.1, h) in
      let seen : AscendingEvents (take (wm - t.base + 1) tail) =
        AscendingEvents-append_left (take (wm - t.base + 1) tail) (drop (wm - t.base + 1) tail)
          (subst AscendingEvents (sym (take-append-drop (wm - t.base + 1) tail)) asc) in
      let same : length (found t.base tail) ≡ length (found t.base (take (wm - t.base + 1) tail)) =
        ap length (sym (within-take q after wm t.base tail low' high)) in
      subst (λ b. length (found b tail) ≤ estimate_matches (view t wm) q (segment_width after b wm))
        fed.1
        (subst (λ n. n ≤ estimate_matches (view t wm) q (segment_width after t.base wm)) (sym same)
          (found-estimate (view t wm) t.base (take (wm - t.base + 1) tail) wm
            (view-TailOf t tail wm fed.0 low' high v.short, view-base t wm)
            (λ tag. view-Counts t tail wm tag fed.0) seen (omega (arith, fed.1, v.base))
            (omega arith) (omega arith)))

-- The estimate of a read is at least the number of events that it finds, and at most its width.
estimate_read-bound :
    (q : Query) (after wm : Position) (s : Snapshot) (parts : List (List EventRef))
    (tail : List EventRef)
    → IsWellFormed q
    → SnapshotOf s parts tail
    → AllCount s.sealed_index
    → wm ≤ length (concat parts ++ tail)
    → (length (keep (within after wm) (scan_from q 1 (concat parts ++ tail)))
        ≤ (estimate_read s q after wm).0)
      × ((estimate_read s q after wm).0 ≤ (estimate_read s q after wm).1)
unfolding estimate_read
estimate_read-bound q after wm s parts tail wf v counts low =
    let base = s.active_log.base_position in
    let small : wm < u64_max = omega (arith, low, v.log.small) in
    let asc =
      Decoded-AscendingEvents (all_records (s.sealed_log ++ s.active_log ∷ []))
        (concat parts ++ tail) v.log.decoded in
    let sealed =
      estimate_sealed-bound q after wm wf small s.sealed_log s.sealed_index parts 1 v.sealed counts
        (AscendingEvents-append_left (concat parts) tail asc) (omega arith) in
    let sum : length (keep (within after wm) (scan_from q 1 (concat parts ++ tail)))
        ≡ length (keep (within after wm) (scan_from q 1 (concat parts)))
          + length (keep (within after wm) (scan_from q base tail)) =
      length-found_append q after wm wf small 1 (concat parts) tail
      ∙ ap
          (λ b.
            length (keep (within after wm) (scan_from q 1 (concat parts)))
            + length (keep (within after wm) (scan_from q b tail)))
          (sym v.base) in
    let within_width =
      found-width q after wm wf small base tail wm (omega (arith, v.base)) (omega arith) in
    elim (Bool-cases (leb base wm)) [
      | inl h ↦ elim (Bool-cases s.active_index.unindexable) [
        | inl u ↦ rw (h, u) (omega (arith, sum, sealed.0, sealed.1, within_width), omega arith)
        | inr u ↦
            let tail_found =
              found-view q after wm wf small s parts tail v
                (AscendingEvents-append_right (concat parts) tail asc) u (ground (arith, h)) low in
            rw (h, u)
              (omega (arith, sum, sealed.0, sealed.1, within_width, tail_found), omega arith)
      ]
      | inr h ↦
          let past : length (keep (within after wm) (scan_from q base tail)) ≡ 0 =
            ground (arith, h, length-scan_window q after wm base tail) in
          rw h (omega (arith, sum, sealed.0, sealed.1, past), omega arith)
    ]

-- The positions that a segment [at, end) adds to the width.
abbrev span : Position → Position → Position → Position → ℕ
span after wm at end = min (end - 1) wm + 1 - (max after (at - 1) + 1)

span-join :
    (after wm at mid end : Position)
    → 1 ≤ at
    → at ≤ mid
    → mid ≤ end
    → span after wm at mid + span after wm mid end ≤ span after wm at end
span-join after wm at mid end a b c = omega arith

-- The widths of the sealed segments are of different positions.
estimate_sealed-width :
    (q : Query) (after wm : Position) (segs : List Segment) (indexes : List (Option SegmentIndex))
    (parts : List (List EventRef)) (at : Position)
    → SegmentsOf segs indexes at parts
    → 1 ≤ at
    → (estimate_sealed segs indexes q after wm).1 ≤ span after wm at (at + length (concat parts))
unfolding estimate_sealed
estimate_sealed-width q after wm [] indexes [] at h a = omega arith
estimate_sealed-width q after wm [] indexes (es ∷ parts) at h a = absurd h
estimate_sealed-width q after wm (seg ∷ segs) [] parts at h a = absurd h
estimate_sealed-width q after wm (seg ∷ segs) (i ∷ indexes) [] at h a = absurd h
estimate_sealed-width q after wm (seg ∷ segs) (i ∷ indexes) (es ∷ parts) at h a =
    let rest =
      estimate_sealed-width q after wm segs indexes parts (at + length es) h.3 (omega arith) in
    let end = at + length es + length (concat parts) in
    let same : end ≡ at + length (concat (es ∷ parts)) =
      omega (arith, length-append es (concat parts)) in
    let join = span-join after wm at (at + length es) end a (omega arith) (omega arith) in
    subst (λ n. (estimate_sealed (seg ∷ segs) (i ∷ indexes) q after wm).1 ≤ span after wm at n) same
      (elim (Bool-cases (length seg.records == 0)) [
        | inl empty ↦ rw empty (omega (arith, rest, join))
        | inr filled ↦ elim (Bool-cases (leb (effective_max seg wm) after)) [
          | inl past ↦ rw (filled, past) (omega (arith, rest, join))
          | inr touched ↦ rw (filled, touched) (omega (arith, rest, join, h.0, h.1))
        ]
      ])

-- The width of a read is at most the number of positions of its window.
estimate_read-width :
    (q : Query) (after wm : Position) (s : Snapshot) (parts : List (List EventRef))
    (tail : List EventRef)
    → SnapshotOf s parts tail
    → (estimate_read s q after wm).1 ≤ wm - after
unfolding estimate_read
estimate_read-width q after wm s parts tail v =
    let sealed =
      estimate_sealed-width q after wm s.sealed_log s.sealed_index parts 1 v.sealed (omega arith) in
    let base = s.active_log.base_position in
    elim (Bool-cases (leb base wm)) [
      | inl h ↦ rw h (ground (arith, sealed, v.base, h))
      | inr h ↦ rw h (ground (arith, sealed, v.base, h))
    ]

mul_mono : (a b n : ℕ) → a ≤ b → a * n ≤ b * n
mul_mono a b zero h = omega arith
mul_mono a b (suc n) h = omega (arith, mul_mono a b n h)

choose-index :
    (estimate width scan_bias : ℕ)
    → choose estimate width scan_bias ≡ Access.index
    → width < u64_max
    → estimate * scan_bias ≤ width
unfolding choose
choose-index estimate width scan_bias h small =
    elim (Bool-cases (leb (saturating_mul estimate scan_bias) width)) [
      | inl fits ↦ ground (arith, fits, small)
      | inr over ↦ absurd (ground (arith, h, over))
    ]

-- Over a snapshot of the log whose indexes give upper bounds for their terms, for a watermark that
-- the log has reached and a well-formed query: when the planner picks the index, the number of
-- events that the read finds, times the scan bias, is at most the number of positions in
-- `(after, watermark]`.
pub index_access-narrow :
    (q : Query) (after wm : Position) (s : Snapshot) (parts : List (List EventRef))
    (tail : List EventRef) (scan_bias : ℕ)
    → IsWellFormed q
    → SnapshotOf s parts tail
    → AllCount s.sealed_index
    → wm ≤ length (concat parts ++ tail)
    → access s q after wm scan_bias ≡ Access.index
    → length (keep (within after wm) (scan_from q 1 (concat parts ++ tail))) * scan_bias
      ≤ wm - after
unfolding access
index_access-narrow q after wm s parts tail scan_bias wf v counts low picked =
    let r = estimate_read s q after wm in
    let width = estimate_read-width q after wm s parts tail v in
    let bound = estimate_read-bound q after wm s parts tail wf v counts low in
    let narrow = choose-index r.0 r.1 scan_bias picked (omega (arith, width, low, v.log.small)) in
    omega (
      arith,
      width,
      narrow,
      mul_mono (length (keep (within after wm) (scan_from q 1 (concat parts ++ tail)))) r.0
          scan_bias bound.0,
    )
