-- ===== src/Writer/Coordinator/Guarantee.antt =====
-- What Worker::process of crates/tephra/src/writer/coordinator.rs checks before it stages a request:
-- the append condition, over the durable log and the requests accepted before it.
use tephra.Prelude.{
  suc, ◌+◌, ◌≡◌, ◌⊎◌, refl, ap, ◌∙◌, true, false, List, [], ◌∷◌, ◌++◌, Option, none, some, length,
  is_empty, All, arith, Bool-cases, Option-cases, inl, inr,
}
use tephra.Prelude.Str.{Str, mem, str_eq_self}
use tephra.Prelude.Result.{ok}
use tephra.Types.Position.{Position}
use tephra.Types.Query.{Query, AppendCondition}
use tephra.Event.{EventRef, tags}
use tephra.Matching.{matches}
use tephra.Matching.Merge.{IsWellFormed}
use tephra.Tips.{StagedTips, contains, may_conflict}
use tephra.Tips.MaxMap.{lookup}
use tephra.Tips.Durable.{StagedAt}
use tephra.Tips.Staged.{Knows, IsTagged, may_conflict_sound}
use tephra.Index.Search.Locals.{AscendingEvents}
use tephra.Index.Search.Oracle.{scan_from}
use tephra.Index.Set.{first}
use tephra.Index.Set.Held.{concat, found_after, found_after-append}
use tephra.Writer.{ConflictSite, ConflictClause, Request}
use tephra.Writer.Condition.{EvalCtx, clauses, evaluate}
use tephra.Writer.Condition.Exact.{
  IsStore, Decoded-AscendingEvents, placed_events, verdict, evaluate-eq-verdict,
}
use tephra.Writer.Batch.{Batch}
use tephra.Writer.Batch.Stage.{Holds}
use tephra.Writer.Coordinator.{Worker, context, admit}

abbrev pub Clause : Type 0
Clause = ConflictClause × Query × Position

-- The two ways in which the staged check is complete: every staged event carries a tag, or every
-- item of the query requires one.
abbrev pub Covered : List EventRef → Query → Type 0
Covered es q = All (λ e. is_empty (tags e) ≡ false) es ⊎ IsTagged q

-- No event of the log after the clause's bound matches.
abbrev pub Clear : List EventRef → Clause → Type 0
Clear es c = found_after c.1 c.2 1 es ≡ []

-- The condition holds in the log `es`: no clause finds an event after its bound.
abbrev pub Satisfied : List EventRef → AppendCondition → Type 0
Satisfied es cond = All (Clear es) (clauses cond)

first-none : (ps : List Position) → first ps ≡ none → ps ≡ []
first-none [] h = refl
first-none (p ∷ ps) h = cc

none_match :
    (q : Query) (after at : Position) (es : List EventRef)
    → All (λ e. matches q e ≡ false) es
    → found_after q after at es ≡ []
unfolding scan_from
none_match q after at [] h = refl
none_match q after at (e ∷ es) h = rw h.0 (none_match q after (suc at) es h.1)

some_tag_known :
    (tips : StagedTips) (t : Str) (q : Position)
    → lookup t tips.tag_positions ≡ some q
    → is_empty tips.tag_positions ≡ false
unfolding lookup
some_tag_known tips t q h = ground arith

module _ (tips : StagedTips) where
  StagedAt-Knows : (at : Position) (e : EventRef) → StagedAt tips (at, e) → Knows tips e
  unfolding contains
  StagedAt-Knows at e k t m = let r = k t m in ground (arith, r.1)

  All-known :
      (at : Position) (es : List EventRef)
      → All (StagedAt tips) (placed_events at es)
      → All (Knows tips) es
  All-known at [] k = tt
  All-known at (e ∷ es) k = (StagedAt-Knows at e k.0, All-known (suc at) es k.1)

  tagged_not_empty :
      (ts : List Str)
      → is_empty ts ≡ false
      → ((t : Str) → mem t ts ≡ true → contains tips t ≡ true)
      → is_empty tips.tag_positions ≡ false
  unfolding contains
  tagged_not_empty [] h k = cc
  tagged_not_empty (t ∷ ts) h k = elim (Option-cases (lookup t tips.tag_positions)) [
    | inl n ↦ absurd (ground (arith, n, k t (ground (arith, str_eq_self t))))
    | inr (q, s) ↦ some_tag_known tips t q s
  ]

  -- What the staged check clears, none of the staged events matches.
  cleared :
      (q : Query) (es : List EventRef)
      → may_conflict tips q ≡ false
      → Covered es q
      → IsWellFormed q
      → AscendingEvents es
      → All (Knows tips) es
      → All (λ e. matches q e ≡ false) es
  cleared q [] h c wf asc k = tt
  cleared q (e ∷ es) h (inl tagged) wf asc k = (
    may_conflict_sound tips q e h (inl (tagged_not_empty (tags e) tagged.0 k.0)) wf asc.0 k.0,
    cleared q es h (inl tagged.1) wf asc.1 k.1,
  )
  cleared q (e ∷ es) h (inr tagged) wf asc k = (
    may_conflict_sound tips q e h (inr tagged) wf asc.0 k.0,
    cleared q es h (inr tagged) wf asc.1 k.1,
  )

-- A verdict of none clears every clause, over the log and the staged events behind it.
verdict-none :
    (ctx : EvalCtx) (es staged : List EventRef) (list : List Clause)
    → verdict ctx es list ≡ none
    → All (λ (c : Clause). IsWellFormed c.1) list
    → All (λ (c : Clause). Covered staged c.1) list
    → AscendingEvents staged
    → All (Knows ctx.staged) staged
    → All (Clear (es ++ staged)) list
unfolding verdict
verdict-none ctx es staged [] h wf cov asc k = tt
verdict-none ctx es staged ((clause, q, after) ∷ list) h wf cov asc k =
    elim (Bool-cases (may_conflict ctx.staged q)) [
      | inl m ↦ absurd (ground (arith, h, m))
      | inr m ↦ elim (Option-cases (first (found_after q after 1 es))) [
        | inr (p, f) ↦ absurd (ground (arith, h, m, f))
        | inl f ↦ (
          found_after-append q after 1 es staged
              ∙ ap (λ l. l ++ found_after q after (1 + length es) staged)
                  (first-none (found_after q after 1 es) f)
              ∙ none_match q after (1 + length es) staged
                  (cleared ctx.staged q staged m cov.0 wf.0 asc k),
          verdict-none ctx es staged list (ground (arith, h, m, f)) wf.1 cov.1 asc k,
        )
      ]
    ]

module _ (w : Worker) (batch : Batch) (parts : List (List EventRef)) (tail staged : List EventRef)
    (at : Position) (req : Request) (cond : AppendCondition)
    (store : IsStore w.set w.index w.tips parts tail)
    (wf : All (λ (c : Clause). IsWellFormed c.1) (clauses cond))
    (asks : req.condition ≡ some cond) where
  abbrev verdict_of : Option (ConflictClause × ConflictSite)
  verdict_of = verdict (context w batch) (concat parts ++ tail) (clauses cond)

  evaluated : evaluate (context w batch) cond ≡ ok verdict_of
  evaluated = evaluate-eq-verdict (context w batch) parts tail cond store wf

  admitted-verdict : admit w batch req ≡ ok tt → verdict_of ≡ none
  unfolding admit
  admitted-verdict h = elim (Option-cases verdict_of) [
    | inl n ↦ n
    | inr (c, s) ↦ absurd (ground (arith, h, asks, evaluated, s))
  ]

  -- On a store whose log, index and tips agree, a request with a well-formed condition that is
  -- admitted has the condition satisfied in the log as it stands with every request accepted
  -- before it in the window, provided that the staged events carry tags or each clause's items
  -- require tags.
  pub admit-Satisfied :
      Holds batch staged at
      → All (λ (c : Clause). Covered staged c.1) (clauses cond)
      → admit w batch req ≡ ok tt
      → Satisfied ((concat parts ++ tail) ++ staged) cond
  admit-Satisfied v cov h =
      verdict-none (context w batch) (concat parts ++ tail) staged (clauses cond)
        (admitted-verdict h) wf cov (Decoded-AscendingEvents batch.records staged v.decoded)
        (All-known batch.tips batch.first staged v.known)
