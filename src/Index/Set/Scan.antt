-- ===== src/Index/Set/Scan.antt =====
-- IndexSet::search_all and find_match of crates/tephra/src/index/set.rs against a scan of the log.
use tephra.Prelude.{
  ◌+◌, ◌-◌, ◌≤◌, ◌≡◌, sym, ap, ◌∙◌, subst, List, [], ◌∷◌, ◌++◌, append-nil, Option, some, ltb,
  length, length-append, arith, Bool-cases, inl, inr,
}
use tephra.Prelude.Result.{ok, Result-cases}
use tephra.Types.Position.{Position, u64_mod}
use tephra.Types.Query.{Query}
use tephra.Event.{EventRef}
use tephra.Matching.Merge.{IsWellFormed}
use tephra.Index.Interface.{SegmentIndex}
use tephra.Index.Search.{search_after}
use tephra.Index.Search.Locals.{AscendingEvents}
use tephra.Index.Search.Oracle.{scan_from, search_after-eq-scan}
use tephra.Index.Tail.{view_full}
use tephra.Index.Set.{
  SealedIndex, IndexSet, plan_sealed, plan_active, plan_touched, search_plan, search_all, first,
  find_in_plan, find_match,
}
use tephra.Index.Set.Held.{
  found_after, SegOf, SealedOf, concat, IndexSetOf, found_after-append, found_after-none, no_events,
  find_in_plan-eq-search_plan, search_plan-append, AscendingEvents-append_left,
  AscendingEvents-append_right, plan_sealed-cons, nothing_in,
}

module _ (q : Query) (after : Position) (wf : IsWellFormed q) where
  -- One segment's answer.
  seg-found :
      (idx : SegmentIndex) (at : Position) (es : List EventRef)
      → SegOf (some idx) at es
      → AscendingEvents es
      → at + length es ≤ u64_mod
      → search_after idx q after ≡ found_after q after at es
  seg-found idx at es h asc k =
      search_after-eq-scan idx es q after h.0 wf asc
        (subst (λ n. n + length es ≤ u64_mod) (sym h.1) k)
      ∙ ap (λ n. found_after q after n es) h.1

  plan_sealed-found :
      (xs : List SealedIndex) (at : Position) (parts : List (List EventRef))
      (plan : List SegmentIndex)
      → SealedOf xs at parts
      → AscendingEvents (concat parts)
      → at + length (concat parts) ≤ u64_mod
      → plan_sealed xs after ≡ ok plan
      → search_plan plan q after ≡ found_after q after at (concat parts)
  unfolding plan_sealed search_plan scan_from
  plan_sealed-found [] at [] plan h asc k p =
      ap (λ l. search_plan l q after) (let e : plan ≡ [] = ground (arith, p) in e)
  plan_sealed-found [] at (es ∷ parts) plan h asc k p = absurd h
  plan_sealed-found (x ∷ xs) at [] plan h asc k p = absurd h
  plan_sealed-found (x ∷ xs) at (es ∷ parts) plan h asc k p =
      let total : at + length es + length (concat parts) ≤ u64_mod =
        omega (arith, length-append es (concat parts)) in
      let later = AscendingEvents-append_right es (concat parts) asc in
      elim (plan_sealed-cons x xs after plan p) [
        | inl (skip, rest) ↦
            plan_sealed-found xs (at + length es) parts plan h.3 later total rest
            ∙ ap (λ l. l ++ found_after q after (at + length es) (concat parts))
                (sym (nothing_in q after at es x h.0 h.1 skip))
            ∙ sym (found_after-append q after at es (concat parts))
        | inr (seg, rest, n, r, made) ↦
            let here =
              seg-found seg at es (subst (λ o. SegOf o at es) n h.2)
                (AscendingEvents-append_left es (concat parts) asc) (omega arith) in
            ap (λ l. search_plan l q after) made
            ∙ ap (λ l. l ++ search_plan rest q after) here
            ∙ ap (λ l. found_after q after at es ++ l)
                (plan_sealed-found xs (at + length es) parts rest h.3 later total r)
            ∙ sym (found_after-append q after at es (concat parts))
      ]

  plan_active-found :
      (s : IndexSet) (parts : List (List EventRef)) (tail : List EventRef)
      (plan : List SegmentIndex)
      → IndexSetOf s parts tail
      → AscendingEvents tail
      → s.active_base + length tail ≤ u64_mod
      → plan_active s after ≡ ok plan
      → search_plan plan q after ≡ found_after q after s.active_base tail
  unfolding plan_active search_plan
  plan_active-found s parts tail plan v asc k p = elim (Bool-cases (ltb 0 s.active_span)) [
    | inl some_events ↦ elim (Bool-cases (ltb after (s.active_base + s.active_span - 1))) [
      | inl reached ↦ elim (Bool-cases s.active_unindexable) [
        | inl u ↦ absurd (ground (arith, p, some_events, reached, u))
        | inr u ↦
            let made : plan ≡ view_full s.active ∷ [] =
              ground (arith, p, some_events, reached, u) in
            ap (λ l. search_plan l q after) made
            ∙ append-nil (search_after (view_full s.active) q after)
            ∙ seg-found (view_full s.active) s.active_base tail (v.active u) asc k
      ]
      | inr l ↦
          let made : plan ≡ [] = ground (arith, p, some_events, l) in
          ap (λ l'. search_plan l' q after) made
          ∙ sym
              (found_after-none q after s.active_base tail (ground (arith, l, some_events, v.span)))
    ]
    | inr z ↦
        let made : plan ≡ [] = ground (arith, p, z) in
        ap (λ l. search_plan l q after) made
        ∙ sym (no_events q after s.active_base tail (ground (arith, z, v.span)))
  ]

  plan_touched-found :
      (s : IndexSet) (parts : List (List EventRef)) (tail : List EventRef)
      (plan : List SegmentIndex)
      → IndexSetOf s parts tail
      → AscendingEvents (concat parts ++ tail)
      → 1 + length (concat parts ++ tail) ≤ u64_mod
      → plan_touched s after ≡ ok plan
      → search_plan plan q after ≡ found_after q after 1 (concat parts ++ tail)
  unfolding plan_touched
  plan_touched-found s parts tail plan v asc k h =
      elim (Result-cases (plan_sealed s.sealed after)) [
        | inl (xs, x) ↦ elim (Result-cases (plan_active s after)) [
          | inl (ys, y) ↦
              let made : plan ≡ xs ++ ys = ground (arith, h, x, y) in
              let total : 1 + length (concat parts) + length tail ≤ u64_mod =
                omega (arith, length-append (concat parts) tail) in
              let first_part =
                plan_sealed-found s.sealed 1 parts xs v.sealed
                  (AscendingEvents-append_left (concat parts) tail asc) (omega arith) x in
              let last_part =
                plan_active-found s parts tail ys v
                  (AscendingEvents-append_right (concat parts) tail asc) (omega (arith, v.base)) y
                ∙ ap (λ n. found_after q after n tail) v.base in
              ap (λ l. search_plan l q after) made
              ∙ search_plan-append xs ys q after
              ∙ ap (λ l. l ++ search_plan ys q after) first_part
              ∙ ap (λ l. found_after q after 1 (concat parts) ++ l) last_part
              ∙ sym (found_after-append q after 1 (concat parts) tail)
          | inr (e, y) ↦ absurd (ground (arith, h, x, y))
        ]
        | inr (e, x) ↦ absurd (ground (arith, h, x))
      ]

  -- On a set that holds a log, for a well-formed query, search_all is the scan of the whole log:
  -- when it answers, its answer is the positions of the events after `after` that match, ascending.
  pub search_all-eq-scan :
      (s : IndexSet) (parts : List (List EventRef)) (tail : List EventRef) (found : List Position)
      → IndexSetOf s parts tail
      → AscendingEvents (concat parts ++ tail)
      → 1 + length (concat parts ++ tail) ≤ u64_mod
      → search_all s q after ≡ ok found
      → found ≡ found_after q after 1 (concat parts ++ tail)
  unfolding search_all
  search_all-eq-scan s parts tail found v asc k h = elim (Result-cases (plan_touched s after)) [
    | inl (plan, p) ↦
        let made : search_plan plan q after ≡ found = ground (arith, h, p) in
        sym made ∙ plan_touched-found s parts tail plan v asc k p
    | inr (e, p) ↦ absurd (ground (arith, h, p))
  ]

  -- On a set that holds a log, for a well-formed query, when find_match answers, its answer is the
  -- first position after `after` of an event of the whole log that matches, or that there is none.
  pub find_match-eq-scan :
      (s : IndexSet) (parts : List (List EventRef)) (tail : List EventRef) (found : Option Position)
      → IndexSetOf s parts tail
      → AscendingEvents (concat parts ++ tail)
      → 1 + length (concat parts ++ tail) ≤ u64_mod
      → find_match s q after ≡ ok found
      → found ≡ first (found_after q after 1 (concat parts ++ tail))
  unfolding find_match
  find_match-eq-scan s parts tail found v asc k h = elim (Result-cases (plan_touched s after)) [
    | inl (plan, p) ↦
        let made : find_in_plan plan q after ≡ found = ground (arith, h, p) in
        sym made
        ∙ find_in_plan-eq-search_plan plan q after
        ∙ ap first (plan_touched-found s parts tail plan v asc k p)
    | inr (e, p) ↦ absurd (ground (arith, h, p))
  ]
