-- ===== src/Matching.antt =====
-- crates/tephra/src/query.rs: the one definition of "does this event match".
pub mod Merge
use tephra.Prelude.{
  Bool, true, false, List, [], ◌∷◌, Option, none, some, ◌&&◌, ◌||◌, Ordering, any, is_empty,
}
use tephra.Prelude.Str.{Str, str_cmp, str_eq, mem}
use tephra.Types.Position.{Position}
use tephra.Types.Tags.{Tags}
use tephra.Types.Query.{QueryItem, Query}
use tephra.Event.{EventRef, event_type, tags}

-- The inner loop of `tags_contained`: skip the event's tags below `req`, and step past it. `none`
-- is the return when it is overshot or the tags run out.
unfoldable pub advance_to : Str → List Str → Option (List Str)
unfolding str_cmp
advance_to req [] = none
advance_to req (t ∷ ts) = elim (str_cmp t req) [
  | Ordering.lt ↦ advance_to req ts
  | Ordering.eq ↦ some ts
  | Ordering.gt ↦ none
]

-- The outer loop, from the iterator's tags that are left.
unfoldable pub contained_from : Tags → List Str → Bool
unfolding advance_to
contained_from [] current = true
contained_from (req ∷ required) current = elim (advance_to req current) [
  | none ↦ false
  | some rest ↦ contained_from required rest
]

-- tags_contained
unfoldable pub tags_contained : Tags → EventRef → Bool
unfolding contained_from tags
tags_contained required event = contained_from required (tags event)

-- Matches for QueryItem
unfoldable pub item_matches : QueryItem → EventRef → Bool
unfolding tags_contained event_type str_eq
item_matches item event =
    (is_empty item.types || any (λ t. str_eq t (event_type event)) item.types)
    && tags_contained item.tags event

-- Matches for Query
unfoldable pub matches : Query → EventRef → Bool
unfolding item_matches
matches Query.all event = true
matches (Query.items items) event = any (λ item. item_matches item event) items

-- An event at its position in the log.
abbrev pub Placed : Type 0
Placed = Position × EventRef
