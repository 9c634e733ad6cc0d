-- ===== src/Read/Positions.antt =====
-- plan_positions of crates/tephra/src/read/mod.rs against a scan of the log.
use tephra.Prelude.{
  ℕ, ◌+◌, ◌-◌, ◌≤◌, ◌≡◌, refl, sym, ap, ◌∙◌, subst, List, [], ◌∷◌, ◌++◌, append-nil, Option, leb,
  length, length-append, keep, min, max, arith, Bool-cases, inl, inr,
}
use tephra.Prelude.Result.{ok}
use tephra.Types.Position.{Position}
use tephra.Types.Query.{Query}
use tephra.Event.{EventRef}
use tephra.Matching.Merge.{IsWellFormed}
use tephra.Index.Search.Locals.{AscendingEvents}
use tephra.Index.Search.Oracle.{scan_from}
use tephra.Index.Set.Held.{concat, AscendingEvents-append_right}
use tephra.Index.Plan.Bound.{within}
use tephra.Log.{all_records}
use tephra.Writer.Condition.Exact.{Decoded-AscendingEvents}
use tephra.Read.{Snapshot, truncate, extend_capped, plan_sealed, plan_active, plan_positions}
use tephra.Read.Window.{window, window-segment, window-join, window-empty}
use tephra.Read.Cap.{extend_capped-truncate, truncate_twice, truncate_nil}
use tephra.Read.Fallback.{scan_positions_into-window}
use tephra.Read.Within.{SnapshotOf, search-view}
use tephra.Read.Sealed.{plan_sealed-Gathered}

module _ (q : Query) (after wm : Position) (wf : IsWellFormed q) where
  module _ (s : Snapshot) (parts : List (List EventRef)) (tail : List EventRef)
      (v : SnapshotOf s parts tail) (low : wm ≤ length (concat parts ++ tail))
      (cap : Option ℕ) where
    abbrev events : List EventRef
    events = concat parts ++ tail

    ascending : AscendingEvents events
    ascending =
        Decoded-AscendingEvents (all_records (s.sealed_log ++ s.active_log ∷ [])) events
          v.log.decoded

    -- The active segment's window, behind that of the sealed ones.
    active-window :
        s.active_log.base_position ≤ wm
        → keep (within after wm) (scan_from q s.active_log.base_position tail)
          ≡ window q events (max after (s.active_log.base_position - 1)) wm
    active-window h =
        let base = s.active_log.base_position in
        let whole : concat parts ++ (tail ++ []) ≡ events =
          ap (λ l. concat parts ++ l) (append-nil tail) in
        let end : min (base + length tail - 1) wm ≡ wm =
          omega (arith, v.base, low, length-append (concat parts) tail) in
        window-segment q (concat parts) tail [] base after wm v.base
        ∙ ap (λ l. window q l (max after (base - 1)) (min (base + length tail - 1) wm)) whole
        ∙ ap (window q events (max after (base - 1))) end

    active-join :
        s.active_log.base_position ≤ wm
        → window q events after (min (s.active_log.base_position - 1) wm)
            ++ window q events (max after (s.active_log.base_position - 1)) wm
          ≡ window q events after wm
    active-join h =
        let base = s.active_log.base_position in
        let end : min (base + wm) wm ≡ wm = omega arith in
        subst
          (λ m.
            window q events after (min (base - 1) wm) ++ window q events (max after (base - 1)) m
            ≡ window q events after m)
          end (window-join q events after wm (base - 1) (base + wm) (omega arith))

    plan_active-window :
        plan_active s q after wm
          (truncate cap (window q events after (min (s.active_log.base_position - 1) wm)))
          cap
        ≡ ok (truncate cap (window q events after wm))
    unfolding plan_active
    plan_active-window =
        let base = s.active_log.base_position in
        let xs = window q events after (min (base - 1) wm) in
        elim (Bool-cases (leb base wm)) [
          | inl h ↦
              let le : base ≤ wm = ground (arith, h) in
              elim (Bool-cases s.active_index.unindexable) [
                | inl u ↦
                    let back : max after (base - 1) + 1 - 1 ≡ max after (base - 1) = omega arith in
                    rw (h, u)
                      (scan_positions_into-window s events v.log q (max after (base - 1) + 1) wm xs
                          cap (omega arith) low
                        ∙ ap (λ m. ok (truncate cap (xs ++ window q events m wm))) back
                        ∙ ap (λ l. ok (truncate cap l)) (active-join le))
                | inr u ↦
                    let fed = v.active u in
                    let total = length-append (concat parts) tail in
                    let found =
                      search-view q after wm wf s.active_index tail fed.0
                        (AscendingEvents-append_right (concat parts) tail ascending)
                        (omega (arith, fed.1, le)) (omega (arith, fed.1, v.base, low, total))
                        (omega (arith, fed.1, v.base, total, v.log.small)) v.short
                      ∙ ap (λ b. keep (within after wm) (scan_from q b tail)) fed.1
                      ∙ active-window le in
                    rw (h, u)
                      (ap (λ l. ok (extend_capped (truncate cap xs) l cap)) found
                        ∙ ap (λ l. ok l)
                            (extend_capped-truncate xs (window q events (max after (base - 1)) wm)
                              cap)
                        ∙ ap (λ l. ok (truncate cap l)) (active-join le))
              ]
          | inr h ↦
              let all_before : min (base - 1) wm ≡ wm = ground (arith, h) in
              rw h (ap (λ m. ok (truncate cap (window q events after m))) all_before)
        ]

-- Over a snapshot of the log and for a watermark that the log has reached, however the segments are
-- indexed and even when the snapshot is newer than the watermark, planning a forward read of a
-- well-formed query succeeds with the first positions, as many as the limit allows, of the events in
-- `(after, watermark]` that match, as a scan of the log finds them.
pub plan_positions-eq-scan :
    (q : Query) (after wm : Position) (s : Snapshot) (parts : List (List EventRef))
    (tail : List EventRef) (limit : Option ℕ)
    → IsWellFormed q
    → SnapshotOf s parts tail
    → wm ≤ length (concat parts ++ tail)
    → plan_positions s q after wm limit
      ≡ ok (truncate limit (keep (within after wm) (scan_from q 1 (concat parts ++ tail))))
unfolding plan_positions
plan_positions-eq-scan q after wm s parts tail limit wf v low =
    let all = concat parts ++ tail in
    let base = s.active_log.base_position in
    let (r, planned, gathered) =
      plan_sealed-Gathered q after wm wf s all v.log
        (Decoded-AscendingEvents (all_records (s.sealed_log ++ s.active_log ∷ [])) all
          v.log.decoded)
        low limit s.sealed_log s.sealed_index parts [] tail 1 base v.sealed refl (omega arith)
        (omega (arith, v.base)) in
    let start : truncate limit (window q all after (min (1 - 1) wm)) ≡ [] =
      ap (truncate limit) (window-empty q all after (min (1 - 1) wm) (omega arith))
      ∙ truncate_nil limit in
    let from_start =
      ap (λ l. plan_sealed s s.sealed_log s.sealed_index q after wm l limit) (sym start)
      ∙ planned in
    elim gathered [
      | inl (stopped, all_found) ↦ rw (from_start, stopped) (ap (λ l. ok l) all_found)
      | inr (went_on, found) ↦
          let active =
            ap (λ l. plan_active s q after wm l limit) found
            ∙ plan_active-window q after wm wf s parts tail v low limit in
          rw (from_start, went_on, active)
            (ap (λ l. ok l) (truncate_twice (window q all after wm) limit))
    ]
