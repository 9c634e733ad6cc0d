-- ===== src/Read/Within.antt =====
-- What a snapshot holds of the log, and what its indexes find in the window of a read
-- (crates/tephra/src/read/mod.rs).
use tephra.Prelude.{
  suc, ◌+◌, ◌-◌, ◌≤◌, ◌<◌, ◌≡◌, refl, sym, ap, ◌∙◌, subst, false, List, [], ◌∷◌, ◌++◌, append-nil,
  Option, some, leb, ltb, length, length-take, take, drop, take-append-drop, keep, arith,
  Bool-cases, inl, inr,
}
use tephra.Types.Position.{Position, u32_max, u64_mod}
use tephra.Types.Query.{Query}
use tephra.Event.{EventRef}
use tephra.Matching.Merge.{IsWellFormed}
use tephra.Index.Rising.{RisingFrom}
use tephra.Index.Interface.{SegmentIndex}
use tephra.Index.Search.{search_after}
use tephra.Index.Search.Locals.{AscendingEvents}
use tephra.Index.Search.Oracle.{scan_from, scan_from-RisingFrom, search_after-eq-scan}
use tephra.Index.Tail.{ActiveTail, view}
use tephra.Index.Tail.Feed.{TailOf}
use tephra.Index.Tail.View.{view-TailOf, view-base}
use tephra.Index.Set.Held.{SegOf, concat, AscendingEvents-append_left}
use tephra.Index.Plan.Bound.{within}
use tephra.Log.{Segment}
use tephra.Read.{Snapshot, take_upto}
use tephra.Read.Window.{
  scan_from-append, keep-append, keep-scan_from, keep-scan_from_none, keep-within_above,
}
use tephra.Read.Fallback.{LogOf}

-- The sealed segments and their indexes hold the parts of the log from `at` on, in order.
abbrev pub SegmentsOf :
    List Segment → List (Option SegmentIndex) → Position → List (List EventRef) → Type 0
SegmentsOf [] indexes at [] = Unit
SegmentsOf [] indexes at (es ∷ parts) = ⊥
SegmentsOf (seg ∷ segs) [] at parts = ⊥
SegmentsOf (seg ∷ segs) (index ∷ indexes) at [] = ⊥
SegmentsOf (seg ∷ segs) (index ∷ indexes) at (es ∷ parts) =
    (seg.base_position ≡ at)
    × (length seg.records ≡ length es)
    × SegOf index at es
    × SegmentsOf segs indexes (at + length es) parts

-- The snapshot holds the log `concat parts ++ tail`; its tail was fed the last part unless it is
-- latched as unindexable.
pub record SnapshotOf (s : Snapshot) (parts : List (List EventRef)) (tail : List EventRef)
    : Type 0 where
  pub log : LogOf s (concat parts ++ tail)
  pub sealed : SegmentsOf s.sealed_log s.sealed_index 1 parts
  pub base : s.active_log.base_position ≡ 1 + length (concat parts)
  pub active :
      s.active_index.unindexable ≡ false
      → TailOf s.active_index tail × (s.active_index.base ≡ s.active_log.base_position)
  pub short : length tail ≤ u32_max

take_upto-keep :
    (after wm low : Position) (xs : List Position)
    → RisingFrom low xs
    → take_upto wm (keep (λ p. ltb after p) xs) ≡ keep (within after wm) xs
unfolding take_upto
take_upto-keep after wm low [] r = refl
take_upto-keep after wm low (x ∷ xs) r = elim (Bool-cases (ltb after x)) [
  | inl a ↦ elim (Bool-cases (leb x wm)) [
    | inl b ↦ rw (a, b) (ap (λ l. x ∷ l) (take_upto-keep after wm (suc x) xs r.1))
    | inr b ↦ rw (a, b) (sym (keep-within_above after wm (suc x) xs r.1 (ground (arith, b))))
  ]
  | inr a ↦ rw a (take_upto-keep after wm (suc x) xs r.1)
]

-- The window up to the watermark looks at no event beyond it.
pub within-take :
    (q : Query) (after wm base : Position) (es : List EventRef)
    → base ≤ wm
    → wm < base + length es
    → keep (within after wm) (scan_from q base (take (wm - base + 1) es))
      ≡ keep (within after wm) (scan_from q base es)
within-take q after wm base es low high =
    let n = wm - base + 1 in
    let front = scan_from q base (take n es) in
    let count : length (take n es) ≡ n = omega (arith, length-take n es) in
    let back = scan_from q (base + length (take n es)) (drop n es) in
    let nothing : keep (within after wm) back ≡ [] =
      keep-scan_from_none (within after wm) q (base + length (take n es)) (drop n es)
        (λ m a b. ground (arith, a, count, low)) in
    sym (append-nil (keep (within after wm) front))
    ∙ ap (λ l. keep (within after wm) front ++ l) (sym nothing)
    ∙ sym (keep-append (within after wm) front back)
    ∙ ap (keep (within after wm)) (sym (scan_from-append q base (take n es) (drop n es)))
    ∙ ap (λ l. keep (within after wm) (scan_from q base l)) (take-append-drop n es)

module _ (q : Query) (after wm : Position) (wf : IsWellFormed q) where
  -- An index of a whole segment.
  pub search-within :
      (idx : SegmentIndex) (at : Position) (es : List EventRef)
      → SegOf (some idx) at es
      → AscendingEvents es
      → at + length es ≤ u64_mod
      → take_upto wm (search_after idx q after) ≡ keep (within after wm) (scan_from q at es)
  search-within idx at es h asc k =
      ap (take_upto wm) (
        search_after-eq-scan idx es q after h.0 wf asc
          (subst (λ n. n + length es ≤ u64_mod) (sym h.1) k))
      ∙ take_upto-keep after wm idx.base (scan_from q idx.base es)
          (scan_from-RisingFrom q idx.base es)
      ∙ ap (λ n. keep (within after wm) (scan_from q n es)) h.1

  -- The view of the tail at the watermark.
  pub search-view :
      (t : ActiveTail) (es : List EventRef)
      → TailOf t es
      → AscendingEvents es
      → t.base ≤ wm
      → wm < t.base + length es
      → t.base + length es ≤ u64_mod
      → length es ≤ u32_max
      → search_after (view t wm) q after ≡ keep (within after wm) (scan_from q t.base es)
  search-view t es v asc low high small short =
      let n = wm - t.base + 1 in
      let count : length (take n es) ≡ n = omega (arith, length-take n es) in
      let seen : AscendingEvents (take n es) =
        AscendingEvents-append_left (take n es) (drop n es)
          (subst AscendingEvents (sym (take-append-drop n es)) asc) in
      search_after-eq-scan (view t wm) (take n es) q after (view-TailOf t es wm v low high short) wf
        seen (omega (arith, view-base t wm, length-take n es))
      ∙ ap (λ b. keep (λ p. ltb after p) (scan_from q b (take n es))) (view-base t wm)
      ∙ keep-scan_from (λ p. ltb after p) (within after wm) q t.base (take n es)
          (λ m a b. ground (arith, b, count, low))
      ∙ within-take q after wm t.base es low high
