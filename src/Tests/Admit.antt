-- ===== src/Tests/Admit.antt =====
-- A test of the admission of a request by the write coordinator.
use tephra.Prelude.{subst, ◌≤◌, ◌≡◌, refl, true, [], ◌∷◌, ◌++◌, none, some, All, arith}
use tephra.Prelude.Result.{ok}
use tephra.Types.Query.{AppendCondition, Query}
use tephra.Event.{Event, as_bytes, as_ref, tags}
use tephra.Matching.{matches}
use tephra.Matching.Merge.{IsWellFormed}
use tephra.Tips.{may_conflict}
use tephra.Index.Search.Oracle.{scan_from}
use tephra.Log.{last_position}
use tephra.Writer.Condition.{clauses}
use tephra.Writer.Batch as Batch
use tephra.Writer.Coordinator.{admit}
use tephra.Writer.{Request}
use tephra.Writer.Coordinator.Guarantee.{Clause, Clear}
use tephra.Writer.Coordinator.Admit.{Unopposed, admit-Unopposed}
use tephra.Writer.Coordinator.Untagged.{admit-untagged}
use tephra.Tests.{if_new, open_request, empty_log}
use tephra.Tests.Writer.{idle, empty-IsStore}

unopposed :
    (cond : AppendCondition)
    → some if_new ≡ some cond
    → All (λ (c : Clause). IsWellFormed c.1) (clauses cond)
      × (cond.after ≤ last_position empty_log)
      × All (Unopposed (Batch.new 1).tips ([] ++ [])) (clauses cond)
unfolding last_position may_conflict Batch.new scan_from
unopposed cond asks =
    let same : if_new ≡ cond = ground (arith, asks) in
    subst
      (λ c.
        All (λ (k : Clause). IsWellFormed k.1) (clauses c)
        × (c.after ≤ last_position empty_log)
        × All (Unopposed (Batch.new 1).tips ([] ++ [])) (clauses c))
      same (((tt, tt), ((tt, tt), tt)), omega arith, ((refl, refl), ((refl, refl), tt)))

admit-Unopposed_example : admit idle (Batch.new 1) (open_request 7) ≡ ok tt
admit-Unopposed_example =
    admit-Unopposed idle (Batch.new 1) [] [] (open_request 7) empty-IsStore unopposed

-- An event without tags, and a request that must come before any other event.
abbrev plain : Event
plain = record { buf = 2 ∷ 0 ∷ 0 ∷ 0 ∷ 97 ∷ 98 ∷ []; data_offset = 6 }

abbrev if_nothing : AppendCondition
if_nothing = record { fail_if_events_match = Query.all; after = 0; fail_if_exists = none }

abbrev plain_request : Request
plain_request = record { events = plain ∷ []; condition = some if_nothing; token = 8 }

plain-untagged : tags (as_ref plain) ≡ []
unfolding tags
plain-untagged = refl

-- The staged event is one that the request excludes.
plain-matches : matches Query.all (as_ref plain) ≡ true
unfolding matches
plain-matches = refl

undecided :
    (cond : AppendCondition)
    → some if_nothing ≡ some cond
    → All (λ (c : Clause). IsWellFormed c.1) (clauses cond)
      × (cond.after ≤ last_position empty_log)
      × All (Clear ([] ++ [])) (clauses cond)
unfolding last_position scan_from
undecided cond asks =
    let same : if_nothing ≡ cond = ground (arith, asks) in
    subst
      (λ c.
        All (λ (k : Clause). IsWellFormed k.1) (clauses c)
        × (c.after ≤ last_position empty_log)
        × All (Clear ([] ++ [])) (clauses c))
      same ((tt, tt), omega arith, (refl, tt))

admit-untagged_example :
    ((Batch.stage (Batch.new 1) (plain ∷ []) 7).records ≡ as_bytes plain ∷ [])
    × (admit idle (Batch.stage (Batch.new 1) (plain ∷ []) 7) plain_request ≡ ok tt)
admit-untagged_example =
    admit-untagged idle [] [] 1 (plain ∷ []) 7 plain_request empty-IsStore (plain-untagged, tt)
      undecided
