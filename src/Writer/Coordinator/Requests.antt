-- ===== src/Writer/Coordinator/Requests.antt =====
-- What the requests of a window ask of Worker::process (crates/tephra/src/writer/coordinator.rs), and
-- the specification of serving them.
use tephra.Prelude.{
  ℕ, suc, ◌+◌, ◌≤◌, ◌≡◌, ◌⊎◌, refl, ap, false, List, [], ◌∷◌, ◌++◌, Option, none, some, length,
  is_empty, All, inl, inr,
}
use tephra.Prelude.Result.{ok}
use tephra.Types.Position.{Position}
use tephra.Types.Query.{AppendCondition}
use tephra.Event.{Event, EventRef, tags}
use tephra.Matching.Merge.{IsWellFormed}
use tephra.Tips.Staged.{IsTagged}
use tephra.Index.Set.Held.{concat}
use tephra.Writer.{Request}
use tephra.Writer.Condition.{clauses}
use tephra.Writer.Condition.Exact.{IsStore}
use tephra.Writer.Batch.{Batch, Staged}
use tephra.Writer.Batch.Stage.{Holds, AreEvents, refs}
use tephra.Writer.Coordinator.{Worker, admit}
use tephra.Writer.Coordinator.Guarantee.{Clause, Covered, Satisfied, admit-Satisfied}

-- What a request asks of the log that it is appended to.
abbrev pub Guard : List EventRef → Option AppendCondition → Type 0
Guard es none = Unit
Guard es (some cond) = Satisfied es cond

abbrev pub acked_at : Request → Position → Position → Staged
acked_at req from upto = record { token = req.token; range = record { first = from; last = upto } }

-- The acknowledgement of a request that is appended to the log `es`: its events' positions.
abbrev pub ack : List EventRef → Request → Staged
ack es req = record {
  token = req.token;
  range = record { first = 1 + length es; last = length es + length req.events };
}

-- The specification: the requests in turn, each passed over or appended as a whole to a log in
-- which its condition holds, and acknowledged with its positions.
abbrev pub Serves : List EventRef → List Request → List EventRef → List Staged → Type 0
Serves es [] es' acks = (es' ≡ es) × (acks ≡ [])
Serves es (req ∷ reqs) es' acks =
    Serves es reqs es' acks
    ⊎ ((later : List Staged) × (acks ≡ ack es req ∷ later)
        × Guard es req.condition
        × Serves (es ++ refs req.events) reqs es' later)

abbrev pub AllClauses : (Clause → Type 0) → Option AppendCondition → Type 0
AllClauses P none = Unit
AllClauses P (some cond) = All P (clauses cond)

-- A request as a caller can build it, with at least one event (WriteHandle rejects an empty one).
pub record IsRequest (req : Request) : Type 0 where
  pub events : AreEvents req.events
  pub some_event : 1 ≤ length req.events
  pub wf : AllClauses (λ (c : Clause). IsWellFormed c.1) req.condition

abbrev pub TaggedEvents : List EventRef → Type 0
TaggedEvents es = All (λ e. is_empty (tags e) ≡ false) es

-- The window that the staged check is complete for: its events carry tags, or its conditions
-- require them.
abbrev pub Checkable : List Request → Type 0
Checkable reqs =
    All (λ (req : Request). TaggedEvents (refs req.events)) reqs
    ⊎ All (λ (req : Request). AllClauses (λ (c : Clause). IsTagged c.1) req.condition) reqs

abbrev pub total_events : List Request → ℕ
total_events [] = 0
total_events (req ∷ reqs) = length req.events + total_events reqs

All-Covered :
    (staged : List EventRef) (list : List Clause)
    → TaggedEvents staged ⊎ All (λ (c : Clause). IsTagged c.1) list
    → All (λ (c : Clause). Covered staged c.1) list
All-Covered staged [] h = tt
All-Covered staged (c ∷ list) (inl h) = (inl h, All-Covered staged list (inl h))
All-Covered staged (c ∷ list) (inr h) = (inr h.0, All-Covered staged list (inr h.1))

pub TaggedEvents-append :
    (xs ys : List EventRef) → TaggedEvents xs → TaggedEvents ys → TaggedEvents (xs ++ ys)
TaggedEvents-append [] ys h k = k
TaggedEvents-append (x ∷ xs) ys h k = (h.0, TaggedEvents-append xs ys h.1 k)

pub admit-Guard :
    (w : Worker) (batch : Batch) (parts : List (List EventRef)) (tail staged : List EventRef)
    (at : Position) (req : Request) (o : Option AppendCondition)
    → IsStore w.set w.index w.tips parts tail
    → Holds batch staged at
    → req.condition ≡ o
    → AllClauses (λ (c : Clause). IsWellFormed c.1) o
    → TaggedEvents staged ⊎ AllClauses (λ (c : Clause). IsTagged c.1) o
    → admit w batch req ≡ ok tt
    → Guard ((concat parts ++ tail) ++ staged) o
admit-Guard w batch parts tail staged at req none store v asks wf cov h = tt
admit-Guard w batch parts tail staged at req (some cond) store v asks wf cov h =
    admit-Satisfied w batch parts tail staged at req cond store wf asks v
      (All-Covered staged (clauses cond) cov) h

pub length-refs : (events : List Event) → length (refs events) ≡ length events
length-refs [] = refl
length-refs (e ∷ events) = ap suc (length-refs events)
