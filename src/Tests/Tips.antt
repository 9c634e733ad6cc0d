-- ===== src/Tests/Tips.antt =====
-- Tests of the durable and the staged tips.
use tephra.Prelude.{◌≡◌, refl, false, List, [], ◌∷◌, ◌++◌, arith, inl}
use tephra.Event.{as_ref, tags}
use tephra.Matching.{Placed, matches}
use tephra.Tips.{StagedTips, new, contains, absorb, may_match, definitely_no_match, may_conflict}
use tephra.Tips.MaxMap.{lookup}
use tephra.Tips.Durable.{IsTips, NoMatch, new-IsTips, may_match_sound, absorb-IsTips}
use tephra.Tips.Staged.{Knows, may_conflict_sound}
use tephra.Types.Query.{Query}
use tephra.Tests.{tag_t, tag_u, opened, asks_t}
use tephra.Tests.Events.{opened_ascends}

abbrev log_of_one : List Placed
log_of_one = (1, as_ref opened) ∷ []

fresh : IsTips (new 2 100) 2 log_of_one
fresh = new-IsTips 2 100 log_of_one (omega arith, tt)

ruled_out : may_match (new 2 100) asks_t 2 ≡ definitely_no_match
unfolding may_match new
ruled_out = refl

may_match_sound_example : NoMatch asks_t 2 log_of_one
may_match_sound_example =
    may_match_sound (new 2 100) asks_t 2 2 log_of_one fresh (tt, tt) (opened_ascends, tt) ruled_out

abbrev staged_u : StagedTips
staged_u = record { tag_positions = (tag_u, 2) ∷ [] }

absorb-IsTips_example : IsTips (absorb (new 2 100) staged_u 3) 3 (log_of_one ++ [])
absorb-IsTips_example =
    absorb-IsTips (new 2 100) staged_u 2 3 log_of_one [] fresh (omega arith) (omega arith, tt) tt

abbrev staged_t : StagedTips
staged_t = record { tag_positions = (tag_t, 1) ∷ [] }

Knows-opened : Knows staged_t (as_ref opened)
unfolding contains lookup tags
Knows-opened = λ t m. ground (arith, m)

abbrev asks_u : Query
asks_u = Query.items (record { types = []; tags = tag_u ∷ [] } ∷ [])

cleared_u : may_conflict staged_t asks_u ≡ false
unfolding may_conflict
cleared_u = refl

may_conflict_sound_example : matches asks_u (as_ref opened) ≡ false
may_conflict_sound_example =
    may_conflict_sound staged_t asks_u (as_ref opened) cleared_u (inl refl) (tt, tt) opened_ascends
      Knows-opened
