-- ===== src/Writer/Condition.antt =====
-- crates/tephra/src/writer/condition.rs: whether an append condition holds.
pub mod Exact
use tephra.Prelude.{ℕ, Bool, true, false, List, [], ◌∷◌, Option, none, some, if◌then◌else◌}
use mathlib.Core.Option as Option
use tephra.Prelude.Str.{Bytes}
use tephra.Prelude.Result.{Result, ok, err, ◌>>=◌, map_err}
use tephra.Types.Position.{Position, zero_position}
use tephra.Types.Query.{Query, AppendCondition}
use tephra.Event.Decode.{from_bytes}
use tephra.Matching.{matches}
use tephra.Tips.{
  TagTips, StagedTips, Verdict, definitely_no_match, unknown, may_match, may_conflict,
}
use tephra.Index.Set.{IndexSet, find_match}
use tephra.Log.{SegmentSet, scan_after}
use tephra.Writer.{
  AppendError, ConflictClause, boundary, existence, ConflictSite, durable, same_batch, log, corrupt,
}

pub record EvalCtx : Type 0 where
  pub main : TagTips
  pub staged : StagedTips
  pub index : IndexSet
  pub set : SegmentSet
  pub verify : Bool
  pub force_scan : Bool

-- The loop of scan_for_match.
unfoldable pub first_match : Query → List (Position × Bytes) → Result AppendError (Option Position)
unfolding from_bytes matches
first_match q [] = ok none
first_match q ((position, bytes) ∷ records) =
    let rest = first_match q records in
    map_err corrupt (from_bytes bytes) >>= λ event.
    if matches q event then ok (some position) else rest

-- scan_for_match
unfoldable pub scan_for_match : SegmentSet → Query → Position → Result AppendError (Option Position)
unfolding scan_after first_match
scan_for_match set q after = map_err log (scan_after set after) >>= λ records. first_match q records

-- verified_against_scan, as a release build runs it: a debug build panics on a disagreement
unfoldable pub verified_against_scan :
    Option Position → SegmentSet → Query → Position → Result AppendError (Option Position)
unfolding scan_for_match
verified_against_scan fast set q after = scan_for_match set q after >>= λ scanned. ok scanned

abbrev pub at_durable : Option Position → Option ConflictSite
at_durable none = none
at_durable (some p) = some (durable p)

-- evaluate_clause, from the verdict of the tips on
unfoldable pub durable_arm : EvalCtx → Query → Position → Result AppendError (Option Position)
unfolding may_match find_match scan_for_match verified_against_scan
durable_arm ctx q after = elim (may_match ctx.main q after) [
  | definitely_no_match ↦ if ctx.verify then verified_against_scan none ctx.set q after else ok none
  | unknown ↦
      if ctx.force_scan
      then scan_for_match ctx.set q after
      else elim (find_match ctx.index q after) [
        | ok found ↦ if ctx.verify then verified_against_scan found ctx.set q after else ok found
        | err e ↦ scan_for_match ctx.set q after
      ]
]

-- evaluate_clause
unfoldable pub evaluate_clause :
    EvalCtx → Query → Position → Result AppendError (Option ConflictSite)
unfolding may_conflict durable_arm
evaluate_clause ctx q after =
    if may_conflict ctx.staged q
    then ok (some same_batch)
    else durable_arm ctx q after >>= λ found. ok (at_durable found)

-- The clauses in the order they are checked.
abbrev pub clauses : AppendCondition → List (ConflictClause × Query × Position)
clauses cond =
    (boundary, cond.fail_if_events_match, cond.after)
    ∷ elim cond.fail_if_exists [ none ↦ [] | some q ↦ (existence, q, zero_position) ∷ [] ]

-- The loop of evaluate.
unfoldable pub evaluate_clauses :
    EvalCtx
    → List (ConflictClause × Query × Position)
    → Result AppendError (Option (ConflictClause × ConflictSite))
unfolding evaluate_clause
evaluate_clauses ctx [] = ok none
evaluate_clauses ctx ((clause, q, after) ∷ rest) =
    let others = evaluate_clauses ctx rest in
    evaluate_clause ctx q after >>= λ found. elim found [
      | some at ↦ ok (some (clause, at))
      | none ↦ others
    ]

-- evaluate
unfoldable pub evaluate :
    EvalCtx → AppendCondition → Result AppendError (Option (ConflictClause × ConflictSite))
unfolding evaluate_clauses
evaluate ctx cond = evaluate_clauses ctx (clauses cond)
