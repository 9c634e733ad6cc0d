-- ===== src/Writer/Coordinator/Admit.antt =====
-- Worker::process of crates/tephra/src/writer/coordinator.rs rejects no request without a reason.
use tephra.Prelude.{
  ◌≡◌, ◌≤◌, refl, false, List, [], ◌∷◌, ◌++◌, none, some, All, arith, Option-cases, inl, inr,
}
use tephra.Prelude.Result.{ok}
use tephra.Types.Query.{AppendCondition}
use tephra.Event.{EventRef}
use tephra.Matching.Merge.{IsWellFormed}
use tephra.Tips.{StagedTips, may_conflict}
use tephra.Index.Set.Held.{concat}
use tephra.Log.{last_position}
use tephra.Writer.{Request}
use tephra.Writer.Condition.{EvalCtx, clauses}
use tephra.Writer.Condition.Exact.{IsStore, verdict, evaluate-eq-verdict}
use tephra.Writer.Batch.{Batch}
use tephra.Writer.Coordinator.{Worker, context, admit}
use tephra.Writer.Coordinator.Guarantee.{Clause, Clear}

-- The staged tips do not suspect the clause, and no durable event after its bound matches.
abbrev pub Unopposed : StagedTips → List EventRef → Clause → Type 0
Unopposed tips es c = (may_conflict tips c.1 ≡ false) × Clear es c

verdict-clear :
    (ctx : EvalCtx) (es : List EventRef) (list : List Clause)
    → All (Unopposed ctx.staged es) list
    → verdict ctx es list ≡ none
unfolding verdict
verdict-clear ctx es [] h = refl
verdict-clear ctx es ((clause, q, after) ∷ list) h =
    ground (arith, h.0.0, h.0.1, verdict-clear ctx es list h.1)

-- On a store whose log, index and tips agree, a request is admitted when its condition is well
-- formed, its bound is not past the tip and no clause of it is suspected by the staged tips or
-- matched by a durable event after the clause's bound; a request without a condition is always
-- admitted.
pub admit-Unopposed :
    (w : Worker) (batch : Batch) (parts : List (List EventRef)) (tail : List EventRef)
    (req : Request)
    → IsStore w.set w.index w.tips parts tail
    → ((cond : AppendCondition)
        → req.condition ≡ some cond
        → All (λ (c : Clause). IsWellFormed c.1) (clauses cond)
          × (cond.after ≤ last_position w.set)
          × All (Unopposed batch.tips (concat parts ++ tail)) (clauses cond))
    → admit w batch req ≡ ok tt
unfolding admit
admit-Unopposed w batch parts tail req store h = elim (Option-cases req.condition) [
  | inl n ↦ ground (arith, n)
  | inr (cond, asks) ↦
      let (wf, low, clear) = h cond asks in
      ground (
        arith,
        asks,
        low,
        evaluate-eq-verdict (context w batch) parts tail cond store wf,
        verdict-clear (context w batch) (concat parts ++ tail) (clauses cond) clear,
      )
]
