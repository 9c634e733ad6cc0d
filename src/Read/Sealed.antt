-- ===== src/Read/Sealed.antt =====
-- The loop of plan_positions over the sealed segments (crates/tephra/src/read/mod.rs).
use tephra.Prelude.{
  ℕ, ◌⊎◌, ◌+◌, ◌-◌, ◌≤◌, ◌≡◌, refl, sym, ap, ◌∙◌, subst, Bool, true, false, List, [], ◌∷◌, ◌++◌,
  append_assoc, Option, none, some, leb, ◌==◌, length, length-append, min, max, arith, Bool-cases,
  inl, inr,
}
use tephra.Prelude.Result.{ok}
use tephra.Types.Position.{Position}
use tephra.Types.Query.{Query}
use tephra.Event.{EventRef}
use tephra.Matching.Merge.{IsWellFormed}
use tephra.Index.Interface.{SegmentIndex}
use tephra.Index.Search.Locals.{AscendingEvents}
use tephra.Index.Set.Held.{SegOf, concat, AscendingEvents-append_left, AscendingEvents-append_right}
use tephra.Log.{Segment}
use tephra.Read.{
  Snapshot, reached, truncate, extend_capped, effective_max, first_after, scan_positions_into,
  plan_segment, plan_sealed,
}
use tephra.Read.Window.{window, window-segment, window-join, window-empty}
use tephra.Read.Cap.{extend_capped-truncate, truncate-reached, truncate_twice}
use tephra.Read.Fallback.{LogOf, scan_positions_into-window}
use tephra.Read.Within.{SegmentsOf, search-within}

module _ (q : Query) (after wm : Position) (wf : IsWellFormed q) where
  module _ (s : Snapshot) (all : List EventRef) (v : LogOf s all) (asc : AscendingEvents all)
      (low : wm ≤ length all) (cap : Option ℕ) where
    -- What one segment adds to what is gathered.
    pub plan_segment-window :
        (seg : Segment) (index : Option SegmentIndex) (pre es post : List EventRef) (at : Position)
        (xs : List Position)
        → all ≡ pre ++ (es ++ post)
        → at ≡ 1 + length pre
        → seg.base_position ≡ at
        → length seg.records ≡ length es
        → SegOf index at es
        → plan_segment s seg index q after wm (truncate cap xs) cap
          ≡ ok
              (truncate cap (xs ++ window q all (max after (at - 1)) (min (at + length es - 1) wm)))
    unfolding plan_segment
    plan_segment-window seg (some idx) pre es post at xs whole place b n h =
        let total =
          (let t : length all ≡ length pre + (length es + length post) =
              ap length whole
              ∙ length-append pre (es ++ post)
              ∙ ap (λ m. length pre + m) (length-append es post) in
            t) in
        let asc' : AscendingEvents es =
          AscendingEvents-append_left es post
            (AscendingEvents-append_right pre (es ++ post) (subst AscendingEvents whole asc)) in
        let found =
          search-within q after wm wf idx at es h asc' (omega (arith, total, v.small))
          ∙ window-segment q pre es post at after wm place
          ∙ ap (λ l. window q l (max after (at - 1)) (min (at + length es - 1) wm)) (sym whole) in
        ap (λ l. ok (extend_capped (truncate cap xs) l cap)) found
        ∙ ap (λ l. ok l)
            (extend_capped-truncate xs
              (window q all (max after (at - 1)) (min (at + length es - 1) wm)) cap)
    plan_segment-window seg none pre es post at xs whole place b n h =
        let from : first_after after seg.base_position ≡ max after (at - 1) + 1 =
          ap (λ m. max after (m - 1) + 1) b in
        let upto : effective_max seg wm ≡ min (at + length es - 1) wm =
          ap (λ m. min (m + length seg.records - 1) wm) b ∙ ap (λ m. min (at + m - 1) wm) n in
        let back : max after (at - 1) + 1 - 1 ≡ max after (at - 1) = omega arith in
        ap (λ m. scan_positions_into s q m (effective_max seg wm) (truncate cap xs) cap) from
        ∙ ap (λ m. scan_positions_into s q (max after (at - 1) + 1) m (truncate cap xs) cap) upto
        ∙ scan_positions_into-window s all v q (max after (at - 1) + 1)
            (min (at + length es - 1) wm) xs cap (omega arith) (omega (arith, low))
        ∙ ap (λ m. ok (truncate cap (xs ++ window q all m (min (at + length es - 1) wm)))) back

    -- What the loop over the sealed segments leaves behind: the window is complete where it returned
    -- at the cap, and else gathered up to the active segment.
    abbrev pub Gathered : Position → Bool × List Position → Type 0
    Gathered base r =
        ((r.0 ≡ true) × (r.1 ≡ truncate cap (window q all after wm)))
        ⊎ ((r.0 ≡ false) × (r.1 ≡ truncate cap (window q all after (min (base - 1) wm))))

    abbrev upto : Position → List Position
    upto at = window q all after (min (at - 1) wm)

    upto-join :
        (at end : Position)
        → 1 ≤ at
        → at ≤ end
        → upto at ++ window q all (max after (at - 1)) (min (end - 1) wm) ≡ upto end
    upto-join at end h k = window-join q all after wm (at - 1) (end - 1) (omega arith)

    upto_complete :
        (at : Position)
        → 1 ≤ at
        → reached cap (truncate cap (upto at)) ≡ true
        → truncate cap (truncate cap (upto at)) ≡ truncate cap (window q all after wm)
    upto_complete at a full =
        let last = length all + 1 + at in
        let end : min (last - 1) wm ≡ wm = omega (arith, low) in
        truncate_twice (upto at) cap
        ∙ sym (
            truncate-reached (upto at) (window q all (max after (at - 1)) (min (last - 1) wm)) cap
              full)
        ∙ ap (truncate cap) (upto-join at last a (omega arith))
        ∙ ap (λ m. truncate cap (window q all after m)) end

    pub plan_sealed-Gathered :
        (segs : List Segment) (indexes : List (Option SegmentIndex)) (parts : List (List EventRef))
        (pre tail : List EventRef) (at base : Position)
        → SegmentsOf segs indexes at parts
        → all ≡ pre ++ (concat parts ++ tail)
        → at ≡ 1 + length pre
        → at + length (concat parts) ≡ base
        → (r : Bool × List Position) × (plan_sealed s segs indexes q after wm
              (truncate cap (upto at))
              cap
            ≡ ok r)
          × Gathered base r
    unfolding plan_sealed
    plan_sealed-Gathered [] indexes [] pre tail at base h whole place end =
        let same : at ≡ base = omega (arith, end) in
        ((false, truncate cap (upto at)), refl, inr (refl, ap (λ m. truncate cap (upto m)) same))
    plan_sealed-Gathered [] indexes (es ∷ parts) pre tail at base h whole place end = absurd h
    plan_sealed-Gathered (seg ∷ segs) [] parts pre tail at base h whole place end = absurd h
    plan_sealed-Gathered (seg ∷ segs) (i ∷ indexes) [] pre tail at base h whole place end = absurd h
    plan_sealed-Gathered (seg ∷ segs) (i ∷ indexes) (es ∷ parts) pre tail at base h whole place
          end =
        let whole' : all ≡ (pre ++ es) ++ (concat parts ++ tail) =
          whole
          ∙ ap (λ l. pre ++ l) (append_assoc es (concat parts) tail)
          ∙ sym (append_assoc pre es (concat parts ++ tail)) in
        let here : all ≡ pre ++ (es ++ (concat parts ++ tail)) =
          whole ∙ ap (λ l. pre ++ l) (append_assoc es (concat parts) tail) in
        let place' : at + length es ≡ 1 + length (pre ++ es) =
          omega (arith, place, length-append pre es) in
        let end' : at + length es + length (concat parts) ≡ base =
          omega (arith, end, length-append es (concat parts)) in
        let rest =
          plan_sealed-Gathered segs indexes parts (pre ++ es) tail (at + length es) base h.3 whole'
            place' end' in
        let joined : upto at ++ window q all (max after (at - 1)) (min (at + length es - 1) wm)
            ≡ upto (at + length es) =
          upto-join at (at + length es) (omega (arith, place)) (omega arith) in
        elim (Bool-cases (length seg.records == 0)) [
          | inl empty ↦
              let same : at + length es ≡ at = ground (arith, empty, h.1) in
              (
                rest.0,
                rw empty (
                    subst
                      (λ m.
                        plan_sealed s segs indexes q after wm (truncate cap (upto m)) cap
                        ≡ ok rest.0)
                      same rest.1),
                rest.2,
              )
          | inr filled ↦ elim (Bool-cases (leb (effective_max seg wm) after)) [
            | inl past ↦
                let same : upto (at + length es) ≡ upto at =
                  window-empty q all after (min (at + length es - 1) wm)
                    (ground (arith, past, h.0, h.1))
                  ∙ sym (
                      window-empty q all after (min (at - 1) wm)
                        (ground (arith, past, h.0, h.1))) in
                (
                  rest.0,
                  rw (filled, past)
                      (subst
                        (λ l.
                          plan_sealed s segs indexes q after wm (truncate cap l) cap ≡ ok rest.0)
                        same rest.1),
                  rest.2,
                )
            | inr touched ↦
                let added =
                  plan_segment-window seg i pre es (concat parts ++ tail) at (upto at) here place
                    h.0 h.1 h.2
                  ∙ ap (λ l. ok (truncate cap l)) joined in
                elim (Bool-cases (reached cap (truncate cap (upto (at + length es))))) [
                  | inl full ↦ (
                    (true, truncate cap (truncate cap (upto (at + length es)))),
                    rw (filled, touched, added, full) refl,
                    inl (refl, upto_complete (at + length es) (omega (arith, place)) full),
                  )
                  | inr room ↦ (rest.0, rw (filled, touched, added, room) rest.1, rest.2)
                ]
          ]
        ]
