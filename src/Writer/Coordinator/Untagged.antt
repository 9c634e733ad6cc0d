-- ===== src/Writer/Coordinator/Untagged.antt =====
-- The window of Worker::process in crates/tephra/src/writer/coordinator.rs while only events without
-- tags stand in it.
use tephra.Prelude.{
  ◌≡◌, ◌≤◌, refl, sym, ap, ◌∙◌, true, List, [], ◌∷◌, ◌++◌, some, All, map, append-nil, append_assoc,
  is_empty, ℕ,
}
use tephra.Prelude.Result.{ok}
use tephra.Types.Position.{Position, next}
use tephra.Types.Query.{AppendCondition}
use tephra.Event.{Event, EventRef, as_bytes, as_ref, tags}
use tephra.Matching.Merge.{IsWellFormed}
use tephra.Tips.Staged.{untagged_batch_missed}
use tephra.Index.Set.Held.{concat}
use tephra.Log.{last_position}
use tephra.Writer.{Request}
use tephra.Writer.Batch.{Batch, record_tags, stage_events, stage}
use tephra.Writer.Batch as Batch
use tephra.Writer.Condition.{clauses}
use tephra.Writer.Condition.Exact.{IsStore}
use tephra.Writer.Coordinator.{Worker, admit}
use tephra.Writer.Coordinator.Guarantee.{Clause, Clear}
use tephra.Writer.Coordinator.Admit.{Unopposed, admit-Unopposed}

-- The event carries no tags.
abbrev pub IsUntagged : Event → Type 0
IsUntagged event = tags (as_ref event) ≡ []

-- Staging such events appends them and records nothing in the staged tips.
stage_events-untagged :
    (events : List Event) (batch : Batch) (p : Position)
    → All IsUntagged events
    → ((stage_events batch events p).0.records ≡ batch.records ++ map as_bytes events)
      × ((stage_events batch events p).0.tips ≡ batch.tips)
unfolding stage_events record_tags
stage_events-untagged [] batch p h = (sym (append-nil batch.records), refl)
stage_events-untagged (event ∷ events) batch p h =
    let staged = record batch {
      records = batch.records ++ as_bytes event ∷ [];
      tips = record_tags batch.tips (tags (as_ref event)) p;
    } in
    let rest = stage_events-untagged events staged (next p) h.1 in
    (
      rest.0 ∙ append_assoc batch.records (as_bytes event ∷ []) (map as_bytes events),
      rest.1 ∙ ap (λ ts. record_tags batch.tips ts p) h.0,
    )

-- On a store whose log, index and tips agree, and after events without tags were staged in an empty
-- batch: the batch holds them, and a request is admitted whatever they match, when its condition is
-- well formed, its bound is not past the tip and no clause of it is matched by a durable event.
pub admit-untagged :
    (w : Worker) (parts : List (List EventRef)) (tail : List EventRef) (at : Position)
    (events : List Event) (token : ℕ) (req : Request)
    → IsStore w.set w.index w.tips parts tail
    → All IsUntagged events
    → ((cond : AppendCondition)
        → req.condition ≡ some cond
        → All (λ (c : Clause). IsWellFormed c.1) (clauses cond)
          × (cond.after ≤ last_position w.set)
          × All (Clear (concat parts ++ tail)) (clauses cond))
    → ((stage (Batch.new at) events token).records ≡ map as_bytes events)
      × (admit w (stage (Batch.new at) events token) req ≡ ok tt)
unfolding stage Batch.new
admit-untagged w parts tail at events token req store plain h =
    let staged = stage_events-untagged events (Batch.new at) at plain in
    let batch = stage (Batch.new at) events token in
    let empty : is_empty batch.tips.tag_positions ≡ true =
      ap (λ tips. is_empty tips.tag_positions) staged.1 in
    (
      staged.0,
      admit-Unopposed w batch parts tail req store (λ cond asks. (
        (h cond asks).0,
        (h cond asks).1,
        unopposed batch (concat parts ++ tail) empty (clauses cond) (h cond asks).2,
      )),
    )
  where
    unopposed :
        (batch : Batch) (es : List EventRef)
        → is_empty batch.tips.tag_positions ≡ true
        → (list : List Clause) → All (Clear es) list
        → All (Unopposed batch.tips es) list
    unopposed batch es empty [] c = tt
    unopposed batch es empty (clause ∷ list) c =
        ((untagged_batch_missed batch.tips clause.1 empty, c.0), unopposed batch es empty list c.1)
