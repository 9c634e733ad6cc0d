-- ===== src/Tips/Staged.antt =====
-- StagedTips of crates/tephra/src/writer/tips.rs: what the same-batch check clears does not conflict,
-- as far as the map of tags can tell.
use tephra.Prelude.{
  ◌≡◌, ◌⊎◌, refl, true, false, List, [], ◌∷◌, all, any, is_empty, All, arith, Bool-cases, inl, inr,
  ◌||◌,
}
use tephra.Prelude.Str.{Str, str_eq, mem}
use tephra.Types.Position.{Position}
use tephra.Types.Tags.{Tags, IsAscending}
use tephra.Types.Query.{QueryItem, Query}
use tephra.Event.{EventRef, tags}
use tephra.Matching.{item_matches, matches}
use tephra.Matching.Merge.{all_in, IsWellFormed, item_matches-eq-item_holds}
use tephra.Tips.{StagedTips, record_tag, contains, may_conflict}
use tephra.Tips.MaxMap.{lookup, lookup-record_max}

-- The map knows every tag of the event.
abbrev pub Knows : StagedTips → EventRef → Type 0
Knows staged e = (t : Str) → mem t (tags e) ≡ true → contains staged t ≡ true

-- Every item of the query requires a tag.
abbrev pub IsTagged : Query → Type 0
IsTagged Query.all = ⊥
IsTagged (Query.items items) = All (λ (item : QueryItem). is_empty item.tags ≡ false) items

pub contains-record_tag :
    (staged : StagedTips) (k : Str) (p : Position) (t : Str)
    → contains (record_tag staged k p) t ≡ (str_eq k t || contains staged t)
unfolding contains record_tag
contains-record_tag staged k p t = ground (arith, lookup-record_max k t p staged.tag_positions)

not_contained :
    (staged : StagedTips) (required : Tags) (ts : List Str)
    → all (contains staged) required ≡ false
    → ((t : Str) → mem t ts ≡ true → contains staged t ≡ true)
    → all_in required ts ≡ false
not_contained staged [] ts h k = cc
not_contained staged (r ∷ required) ts h k = elim (Bool-cases (mem r ts)) [
  | inl e ↦ ground (arith, h, k r e, not_contained staged required ts, e)
  | inr e ↦ rw e
]

-- An event that the empty map knows has no tags, and answers no item that requires one.
untagged :
    (required : Tags) (ts : List Str)
    → is_empty required ≡ false
    → ((t : Str) → mem t ts ≡ true → ⊥)
    → all_in required ts ≡ false
untagged [] ts h k = cc
untagged (r ∷ required) ts h k = elim (Bool-cases (mem r ts)) [
  | inl e ↦ absurd (k r e)
  | inr e ↦ rw e
]

empty_contains :
    (staged : StagedTips) (t : Str)
    → is_empty staged.tag_positions ≡ true
    → contains staged t ≡ false
unfolding contains lookup
empty_contains staged t h = ground arith

items_conflict_sound :
    (staged : StagedTips) (items : List QueryItem) (e : EventRef)
    → any (λ (item : QueryItem). all (contains staged) item.tags) items ≡ false
    → All (λ (item : QueryItem). IsAscending item.tags) items
    → IsAscending (tags e)
    → Knows staged e
    → any (λ item. item_matches item e) items ≡ false
items_conflict_sound staged [] e h wf asc k = refl
items_conflict_sound staged (item ∷ items) e h wf asc k =
    let clear : all (contains staged) item.tags ≡ false = ground arith in
    rw (item_matches-eq-item_holds item e wf.0 asc, not_contained staged item.tags (tags e) clear k)
      (ground (arith, items_conflict_sound staged items e (ground arith) wf.1 asc k))

items_untagged :
    (items : List QueryItem) (e : EventRef)
    → All (λ (item : QueryItem). is_empty item.tags ≡ false) items
    → All (λ (item : QueryItem). IsAscending item.tags) items
    → IsAscending (tags e)
    → ((t : Str) → mem t (tags e) ≡ true → ⊥)
    → any (λ item. item_matches item e) items ≡ false
items_untagged [] e tagged wf asc k = refl
items_untagged (item ∷ items) e tagged wf asc k =
    rw (item_matches-eq-item_holds item e wf.0 asc, untagged item.tags (tags e) tagged.0 k)
      (ground (arith, items_untagged items e tagged.1 wf.1 asc k))

-- What the same-batch check clears does not match: no event whose tags, ascending, the map knows
-- matches a well-formed query that the check clears, provided that something was recorded in the
-- map or that every item of the query requires a tag.
pub may_conflict_sound :
    (staged : StagedTips) (q : Query) (e : EventRef)
    → may_conflict staged q ≡ false
    → (is_empty staged.tag_positions ≡ false) ⊎ IsTagged q
    → IsWellFormed q
    → IsAscending (tags e)
    → Knows staged e
    → matches q e ≡ false
unfolding may_conflict matches
may_conflict_sound staged Query.all e h (inl some_tag) wf asc k = ground (arith, h, some_tag)
may_conflict_sound staged Query.all e h (inr tagged) wf asc k = absurd tagged
may_conflict_sound staged (Query.items items) e h (inl some_tag) wf asc k =
    items_conflict_sound staged items e (ground (arith, h, some_tag)) wf asc k
may_conflict_sound staged (Query.items items) e h (inr tagged) wf asc k =
    elim (Bool-cases (is_empty staged.tag_positions)) [
      | inl e' ↦
          items_untagged items e tagged wf asc (λ t m. cc (k t m, empty_contains staged t e'))
      | inr e' ↦ items_conflict_sound staged items e (ground (arith, h, e')) wf asc k
    ]

-- While no tag was recorded in the map, the check clears every query, the catch-all query included.
pub untagged_batch_missed :
    (staged : StagedTips) (q : Query)
    → is_empty staged.tag_positions ≡ true
    → may_conflict staged q ≡ false
unfolding may_conflict
untagged_batch_missed staged Query.all h = rw h
untagged_batch_missed staged (Query.items items) h = rw h
