-- ===== src/Matching/Merge.antt =====
-- The linear merge of crates/tephra/src/query.rs decides containment of sorted tag sets.
use tephra.Prelude.{
  Bool, true, false, List, [], ◌∷◌, none, some, ◌&&◌, ◌||◌, ◌≡◌, refl, all, any, All, is_empty,
  arith, Option-cases, inl, inr,
}
use tephra.Prelude.Str.{
  Str, Bytes, str_lt, str_eq_comm, str_lt_trans, str_lt→ne, mem, below, same, above, compared,
}
use tephra.Prelude.Result.{ok}
use tephra.Types.Tags.{Tags, IsAscending}
use tephra.Types.Tags.Order.{Above-trans, IsAscending-tail, IsAscending-Above, Above, mem-Above}
use tephra.Types.Query.{QueryItem, Query}
use tephra.Event.{EventRef, event_type, tags}
use tephra.Event.Decode.{from_bytes}
use tephra.Event.Sound.{from_bytes-IsAscending}
use tephra.Matching.{advance_to, contained_from, item_matches, matches}

-- The specification: every required tag is one of the event's.
abbrev pub all_in : Tags → List Str → Bool
all_in required ts = all (λ r. mem r ts) required

-- Where the loop stops at `rest`, a string above `req` is in `rest` exactly when it was there.
advance_to-some :
    (req : Str) (ts rest : List Str)
    → advance_to req ts ≡ some rest
    → (mem req ts ≡ true) × ((s : Str) → str_lt req s ≡ true → mem s rest ≡ mem s ts)
unfolding advance_to
advance_to-some req [] rest h = cc
advance_to-some req (t ∷ ts) rest h = elim (compared t req) [
  | below e l n ↦
      let ih = advance_to-some req ts rest (ground (arith, h, e)) in
      (
        ground (arith, ih.0),
        λ s k. ground (arith, ih.1 s k, str_lt→ne t s, str_lt_trans t req s l k),
      )
  | same e q n ↦ (
    ground arith,
    λ s k. let k' : str_lt t s ≡ true = rw q k in ground (arith, h, e, str_lt→ne t s k'),
  )
  | above e l n ↦ absurd (ground (arith, h, e))
]

advance_to-none :
    (req : Str) (ts : List Str) → IsAscending ts → advance_to req ts ≡ none → mem req ts ≡ false
unfolding advance_to
advance_to-none req [] asc h = refl
advance_to-none req (t ∷ ts) asc h = elim (compared t req) [
  | below e l n ↦ ground (arith, advance_to-none req ts (IsAscending-tail t ts asc))
  | same e q n ↦ absurd (ground (arith, h, e))
  | above e l n ↦ ground (
    arith,
    str_eq_comm t req,
    mem-Above req ts (Above-trans req t ts l (IsAscending-Above t ts asc)),
  )
]

-- Stepping past `req` leaves an ascending rest.
advance_to-IsAscending :
    (req : Str) (ts rest : List Str)
    → IsAscending ts
    → advance_to req ts ≡ some rest
    → IsAscending rest
unfolding advance_to
advance_to-IsAscending req [] rest asc h = cc
advance_to-IsAscending req (t ∷ ts) rest asc h = ground (
  arith,
  IsAscending-tail t ts asc,
  advance_to-IsAscending req ts rest (IsAscending-tail t ts asc),
)

all_in-same :
    (required : Tags) (rest ts : List Str) (req : Str)
    → Above req required
    → ((s : Str) → str_lt req s ≡ true → mem s rest ≡ mem s ts)
    → all_in required rest ≡ all_in required ts
all_in-same [] rest ts req up same_up = refl
all_in-same (r ∷ required) rest ts req up same_up =
    rw (same_up r up.0, all_in-same required rest ts req up.1 same_up)

pub contained_from-eq-all_in :
    (required : Tags) (ts : List Str)
    → IsAscending required
    → IsAscending ts
    → contained_from required ts ≡ all_in required ts
unfolding contained_from
contained_from-eq-all_in [] ts ar at = refl
contained_from-eq-all_in (req ∷ required) ts ar at = elim (Option-cases (advance_to req ts)) [
  | inl e ↦ ground (arith, e, advance_to-none req ts at e)
  | inr (rest, e) ↦
      let (found, same_above) = advance_to-some req ts rest e in
      ground (
        arith,
        e,
        found,
        contained_from-eq-all_in required rest (IsAscending-tail req required ar)
            (advance_to-IsAscending req ts rest at e),
        all_in-same required rest ts req (IsAscending-Above req required ar) same_above,
      )
]

-- The query language as the documentation states it: "one of" over types, "all of" over tags, OR
-- over items.
abbrev pub item_holds : QueryItem → Str → List Str → Bool
item_holds item ty ts = (is_empty item.types || mem ty item.types) && all_in item.tags ts

abbrev pub holds : Query → Str → List Str → Bool
holds Query.all ty ts = true
holds (Query.items items) ty ts = any (λ item. item_holds item ty ts) items

-- The tags of every item are a tag set.
abbrev pub IsWellFormed : Query → Type 0
IsWellFormed Query.all = Unit
IsWellFormed (Query.items items) = All (λ item. IsAscending item.tags) items

pub item_matches-eq-item_holds :
    (item : QueryItem) (event : EventRef)
    → IsAscending item.tags
    → IsAscending (tags event)
    → item_matches item event ≡ item_holds item (event_type event) (tags event)
unfolding item_matches
item_matches-eq-item_holds item event a b = rw (contained_from-eq-all_in item.tags (tags event) a b)

items_match :
    (items : List QueryItem) (event : EventRef)
    → All (λ item. IsAscending item.tags) items
    → IsAscending (tags event)
    → any (λ item. item_matches item event) items
      ≡ any (λ item. item_holds item (event_type event) (tags event)) items
items_match [] event a b = refl
items_match (item ∷ items) event a b =
    rw (item_matches-eq-item_holds item event a.0 b, items_match items event a.1 b)

-- On an event with ascending tags the predicate of the code is the documented one.
pub matches-eq-holds :
    (q : Query) (event : EventRef)
    → IsWellFormed q
    → IsAscending (tags event)
    → matches q event ≡ holds q (event_type event) (tags event)
unfolding matches
matches-eq-holds Query.all event w b = refl
matches-eq-holds (Query.items items) event w b = items_match items event w b

-- On every event that decodes, whatever its bytes, a well-formed query matches just when it holds
-- of the event's type and tags: it is the catch-all, or one of its items lists the type or none and
-- asks for tags that the event all carries.
pub matches-from_bytes :
    (q : Query) (buf : Bytes) (event : EventRef)
    → IsWellFormed q
    → from_bytes buf ≡ ok event
    → matches q event ≡ holds q (event_type event) (tags event)
matches-from_bytes q buf event w h =
    matches-eq-holds q event w (from_bytes-IsAscending buf event h).1
