-- ===== src/Writer/Condition/Exact.antt =====
-- The append condition of crates/tephra/src/writer/condition.rs against the log it guards.
use tephra.Prelude.{
  suc, ◌+◌, ◌≤◌, ◌≡◌, refl, ap, ◌∙◌, List, [], ◌∷◌, ◌++◌, Option, none, some, if◌then◌else◌, ltb,
  length, keep, All, arith, Bool-cases, Option-cases, inl, inr,
}
use tephra.Prelude.Str.{Bytes}
use tephra.Prelude.Result.{ok, Result-cases}
use tephra.Types.Position.{Position, u64_mod}
use tephra.Types.Query.{Query, AppendCondition}
use tephra.Event.{EventRef}
use tephra.Event.Decode.{from_bytes}
use tephra.Event.Sound.{from_bytes-IsAscending}
use tephra.Matching.{Placed, matches}
use tephra.Matching.Merge.{IsWellFormed}
use tephra.Tips.{TagTips, definitely_no_match, may_match, may_conflict, Verdict-cases}
use tephra.Tips.Durable.{IsTips, NoMatch, AscendingTags, may_match_sound}
use tephra.Index.Search.Locals.{AscendingEvents}
use tephra.Index.Search.Oracle.{scan_from}
use tephra.Index.Set.{IndexSet, find_match, first}
use tephra.Index.Set.Held.{concat, found_after}
use tephra.Index.Set.Scan.{find_match-eq-scan}
use tephra.Index.Set.Feed.{IsFed, IsFed-IndexSetOf}
use tephra.Log.{SegmentSet, segments}
use tephra.Log.Scan.{IsLog, Contiguous-end, placed, scan_after-eq-placed}
use tephra.Log.Rollover.{log_of}
use tephra.Writer.{ConflictClause, ConflictSite, durable, same_batch}
use tephra.Writer.Condition.{
  EvalCtx, first_match, scan_for_match, verified_against_scan, at_durable, durable_arm,
  evaluate_clause, clauses, evaluate_clauses, evaluate,
}

-- The records are the bytes of the events.
abbrev pub Decoded : List Bytes → List EventRef → Type 0
Decoded [] [] = Unit
Decoded [] (e ∷ es) = ⊥
Decoded (r ∷ records) [] = ⊥
Decoded (r ∷ records) (e ∷ es) = (from_bytes r ≡ ok e) × Decoded records es

abbrev pub placed_events : Position → List EventRef → List Placed
placed_events at [] = []
placed_events at (e ∷ es) = (at, e) ∷ placed_events (suc at) es

pub Decoded-append :
    (xs ys : List Bytes) (es fs : List EventRef)
    → Decoded xs es
    → Decoded ys fs
    → Decoded (xs ++ ys) (es ++ fs)
Decoded-append [] ys [] fs d d' = d'
Decoded-append [] ys (e ∷ es) fs d d' = absurd d
Decoded-append (x ∷ xs) ys [] fs d d' = absurd d
Decoded-append (x ∷ xs) ys (e ∷ es) fs d d' = (d.0, Decoded-append xs ys es fs d.1 d')

pub placed_events-append :
    (at : Position) (es fs : List EventRef)
    → placed_events at (es ++ fs) ≡ placed_events at es ++ placed_events (at + length es) fs
placed_events-append at [] fs =
    ap (λ n. placed_events n fs) (let h : at ≡ at + 0 = omega arith in h)
placed_events-append at (e ∷ es) fs =
    let shift : suc at + length es ≡ at + suc (length es) = omega arith in
    ap (λ l. (at, e) ∷ l)
      (placed_events-append (suc at) es fs
        ∙ ap (λ n. placed_events (suc at) es ++ placed_events n fs) shift)

pub Decoded-length :
    (records : List Bytes) (es : List EventRef) → Decoded records es → length records ≡ length es
Decoded-length [] [] d = refl
Decoded-length [] (e ∷ es) d = absurd d
Decoded-length (r ∷ records) [] d = absurd d
Decoded-length (r ∷ records) (e ∷ es) d = ap suc (Decoded-length records es d.1)

pub Decoded-AscendingEvents :
    (records : List Bytes) (es : List EventRef) → Decoded records es → AscendingEvents es
Decoded-AscendingEvents [] [] d = tt
Decoded-AscendingEvents [] (e ∷ es) d = absurd d
Decoded-AscendingEvents (r ∷ records) [] d = absurd d
Decoded-AscendingEvents (r ∷ records) (e ∷ es) d =
    ((from_bytes-IsAscending r e d.0).1, Decoded-AscendingEvents records es d.1)

-- The log's records, its index and its tips are of the events `concat parts ++ tail`.
pub record IsStore (set : SegmentSet) (index : IndexSet) (main : TagTips)
    (parts : List (List EventRef)) (tail : List EventRef) : Type 0 where
  pub is_log : IsLog set
  pub decoded : Decoded (log_of set) (concat parts ++ tail)
  pub fed : IsFed index parts tail
  pub bounded : IsTips main set.next_position (placed_events 1 (concat parts ++ tail))

first_match-eq :
    (q : Query) (after at : Position) (records : List Bytes) (es : List EventRef)
    → Decoded records es
    → first_match q (keep (λ (r : Position × Bytes). ltb after r.0) (placed at records))
      ≡ ok (first (found_after q after at es))
unfolding first_match scan_from
first_match-eq q after at [] [] d = refl
first_match-eq q after at [] (e ∷ es) d = absurd d
first_match-eq q after at (r ∷ records) [] d = absurd d
first_match-eq q after at (r ∷ records) (e ∷ es) d = elim (Bool-cases (ltb after at)) [
  | inl l ↦ elim (Bool-cases (matches q e)) [
    | inl m ↦ rw (l, d.0, m, l)
    | inr m ↦ rw (l, d.0, m) (first_match-eq q after (suc at) records es d.1)
  ]
  | inr l ↦ elim (Bool-cases (matches q e)) [
    | inl m ↦ rw (l, m, l) (first_match-eq q after (suc at) records es d.1)
    | inr m ↦ rw (l, m) (first_match-eq q after (suc at) records es d.1)
  ]
]

-- What the tips rule out is not found.
NoMatch-none :
    (q : Query) (after at : Position) (es : List EventRef)
    → NoMatch q after (placed_events at es)
    → found_after q after at es ≡ []
unfolding scan_from
NoMatch-none q after at [] h = refl
NoMatch-none q after at (e ∷ es) h = ground (arith, h.0, NoMatch-none q after (suc at) es h.1)

AscendingTags-placed :
    (at : Position) (es : List EventRef) → AscendingEvents es → AscendingTags (placed_events at es)
AscendingTags-placed at [] h = tt
AscendingTags-placed at (e ∷ es) h = (h.0, AscendingTags-placed (suc at) es h.1)

module _ (ctx : EvalCtx) (parts : List (List EventRef)) (tail : List EventRef)
    (store : IsStore ctx.set ctx.index ctx.main parts tail) where
  abbrev events : List EventRef
  events = concat parts ++ tail

  scan_for_match-eq :
      (q : Query) (after : Position)
      → scan_for_match ctx.set q after ≡ ok (first (found_after q after 1 events))
  unfolding scan_for_match
  scan_for_match-eq q after =
      rw (scan_after-eq-placed ctx.set after store.is_log)
        (first_match-eq q after 1 (log_of ctx.set) events store.decoded)

  ascending : AscendingEvents events
  ascending = Decoded-AscendingEvents (log_of ctx.set) events store.decoded

  in_range : 1 + length events ≤ u64_mod
  in_range = omega (
    arith,
    Contiguous-end (segments ctx.set) 1 ctx.set.next_position store.is_log.contiguous,
    Decoded-length (log_of ctx.set) events store.decoded,
    store.is_log.small,
  )

  verified-eq :
      (fast : Option Position) (q : Query) (after : Position)
      → verified_against_scan fast ctx.set q after ≡ ok (first (found_after q after 1 events))
  unfolding verified_against_scan
  verified-eq fast q after = rw (scan_for_match-eq q after)

  ruled_out :
      (q : Query) (after : Position)
      → IsWellFormed q
      → may_match ctx.main q after ≡ definitely_no_match
      → first (found_after q after 1 events) ≡ none
  ruled_out q after wf h = ap first (
      NoMatch-none q after 1 events (
        may_match_sound ctx.main q after ctx.set.next_position (placed_events 1 events)
          store.bounded wf (AscendingTags-placed 1 events ascending) h))

  -- Whichever way the durable arm takes, it answers the first match of the log.
  durable_arm-eq :
      (q : Query) (after : Position)
      → IsWellFormed q
      → durable_arm ctx q after ≡ ok (first (found_after q after 1 events))
  unfolding durable_arm
  durable_arm-eq q after wf = elim (Verdict-cases (may_match ctx.main q after)) [
    | inl h ↦
        ground (arith, h, verified-eq none q after, ruled_out q after wf h, Bool-cases ctx.verify)
    | inr h ↦ elim (Result-cases (find_match ctx.index q after)) [
      | inr (e, r) ↦ ground (arith, h, r, scan_for_match-eq q after)
      | inl (found, r) ↦ ground (
        arith,
        h,
        r,
        scan_for_match-eq q after,
        verified-eq found q after,
        find_match-eq-scan q after wf ctx.index parts tail found
            (IsFed-IndexSetOf ctx.index parts tail store.fed) ascending in_range r,
      )
    ]
  ]

  -- What one clause finds: the same-batch verdict, or the first match in the log.
  abbrev clause_site : Query → Position → Option ConflictSite
  clause_site q after =
      if may_conflict ctx.staged q
      then some same_batch
      else at_durable (first (found_after q after 1 events))

  evaluate_clause-eq :
      (q : Query) (after : Position)
      → IsWellFormed q
      → evaluate_clause ctx q after ≡ ok (clause_site q after)
  unfolding evaluate_clause
  evaluate_clause-eq q after wf = elim (Bool-cases (may_conflict ctx.staged q)) [
    | inl m ↦ rw m
    | inr m ↦ rw (m, durable_arm-eq q after wf)
  ]

-- The first clause that finds something, with what it finds.
unfoldable pub verdict :
    EvalCtx
    → List EventRef
    → List (ConflictClause × Query × Position)
    → Option (ConflictClause × ConflictSite)
verdict ctx es [] = none
verdict ctx es ((clause, q, after) ∷ rest) =
    if may_conflict ctx.staged q
    then some (clause, same_batch)
    else elim (first (found_after q after 1 es)) [
      | some p ↦ some (clause, durable p)
      | none ↦ verdict ctx es rest
    ]

evaluate_clauses-eq :
    (ctx : EvalCtx) (parts : List (List EventRef)) (tail : List EventRef)
    (list : List (ConflictClause × Query × Position))
    → IsStore ctx.set ctx.index ctx.main parts tail
    → All (λ (c : ConflictClause × Query × Position). IsWellFormed c.1) list
    → evaluate_clauses ctx list ≡ ok (verdict ctx (concat parts ++ tail) list)
unfolding evaluate_clauses verdict
evaluate_clauses-eq ctx parts tail [] store wf = refl
evaluate_clauses-eq ctx parts tail ((clause, q, after) ∷ rest) store wf = ground (
  arith,
  evaluate_clause-eq ctx parts tail store q after wf.0,
  evaluate_clauses-eq ctx parts tail rest store wf.1,
  Option-cases (first (found_after q after 1 (concat parts ++ tail))),
)

-- On a store whose log, index and tips agree, evaluating a condition with well-formed queries
-- never fails, and it answers, for every setting of the verify and force-scan switches and
-- whatever part of the index is degraded, the first clause that the staged tips suspect or that a
-- durable event after its bound matches, at the first such event.
pub evaluate-eq-verdict :
    (ctx : EvalCtx) (parts : List (List EventRef)) (tail : List EventRef) (cond : AppendCondition)
    → IsStore ctx.set ctx.index ctx.main parts tail
    → All (λ (c : ConflictClause × Query × Position). IsWellFormed c.1) (clauses cond)
    → evaluate ctx cond ≡ ok (verdict ctx (concat parts ++ tail) (clauses cond))
unfolding evaluate
evaluate-eq-verdict ctx parts tail cond store wf =
    evaluate_clauses-eq ctx parts tail (clauses cond) store wf
