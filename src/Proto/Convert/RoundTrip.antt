-- ===== src/Proto/Convert/RoundTrip.antt =====
-- Conversions of crates/tephra-proto/src/convert.rs there and back.
use tephra.Prelude.{◌≡◌, refl, ap, ◌∙◌, Option, none, some, List, [], ◌∷◌, All, arith, true, map}
use tephra.Prelude.Str.{Str, str_lt_asymm, str_lt→ne, str_eq_comm}
use tephra.Prelude.Result.{ok}
use tephra.Types.Position.{Position}
use tephra.Types.Name.{IsName, new_event_type, IsName-new_tag}
use tephra.Types.Tags.{Tags, TagsError, IsAscending, insert_sorted, sort, first_duplicate}
use tephra.Types.Tags
use tephra.Types.Query.{QueryItem, Query, AppendCondition}
use tephra.Event.Utf8.{is_utf8}
use tephra.Proto.Convert.{
  as_str, collect_tags, tags_from_pb, types_from_pb, items_from_pb, item_to_pb, query_from_pb,
  query_to_pb, condition_from_pb, condition_to_pb,
}

-- A name that the constructors accept, of valid UTF-8 as a Rust string is.
abbrev pub IsText : Str → Type 0
IsText s = (is_utf8 s ≡ true) × IsName s

abbrev pub IsItem : QueryItem → Type 0
IsItem item = All IsText item.types × All IsText item.tags × IsAscending item.tags

abbrev pub IsQuery : Query → Type 0
IsQuery Query.all = Unit
IsQuery (Query.items items) = All IsItem items

abbrev pub IsOptional : Option Query → Type 0
IsOptional none = Unit
IsOptional (some q) = IsQuery q

abbrev pub IsCondition : AppendCondition → Type 0
IsCondition c = IsQuery c.fail_if_events_match × IsOptional c.fail_if_exists

IsName-new_event_type : (s : Str) → IsName s → new_event_type s ≡ ok s
unfolding new_event_type
IsName-new_event_type s v = ground arith

as_str-text : (s : Str) → is_utf8 s ≡ true → as_str s ≡ ok s
unfolding as_str
as_str-text s h = rw h refl

collect_tags-texts : (ts : List Str) → All IsText ts → collect_tags ts ≡ ok ts
unfolding collect_tags
collect_tags-texts [] h = refl
collect_tags-texts (t ∷ ts) h =
    rw (as_str-text t h.0.0, IsName-new_tag t h.0.1, collect_tags-texts ts h.1) refl

types-texts : (ts : List Str) → All IsText ts → types_from_pb ts ≡ ok ts
unfolding types_from_pb
types-texts [] h = refl
types-texts (t ∷ ts) h =
    rw (as_str-text t h.0.0, IsName-new_event_type t h.0.1, types-texts ts h.1) refl

-- Tags in order are left as they are.
sort-IsAscending : (ts : List Str) → IsAscending ts → sort ts ≡ ts
unfolding sort
sort-IsAscending [] h = refl
sort-IsAscending (t ∷ []) h = unfold insert_sorted in refl
sort-IsAscending (t ∷ u ∷ us) h =
    ap (insert_sorted t) (sort-IsAscending (u ∷ us) h.1)
    ∙ unfold insert_sorted in rw (str_lt_asymm t u h.0) refl

no_duplicate : (ts : List Str) → IsAscending ts → first_duplicate ts ≡ none
unfolding first_duplicate
no_duplicate [] h = refl
no_duplicate (t ∷ []) h = refl
no_duplicate (t ∷ u ∷ us) h = rw (str_eq_comm u t, str_lt→ne t u h.0) (no_duplicate (u ∷ us) h.1)

new-IsAscending : (ts : List Str) → IsAscending ts → Tags.new ts ≡ ok ts
unfolding Tags.new
new-IsAscending ts h =
    let unique : first_duplicate (sort ts) ≡ none =
      ap first_duplicate (sort-IsAscending ts h) ∙ no_duplicate ts h in
    rw (unique, Tags.new) (ap ok (sort-IsAscending ts h))

tags-texts : (ts : List Str) → All IsText ts → IsAscending ts → tags_from_pb ts ≡ ok ts
unfolding tags_from_pb
tags-texts ts h asc = rw (collect_tags-texts ts h, new-IsAscending ts asc) refl

items-items :
    (items : List QueryItem) → All IsItem items → items_from_pb (map item_to_pb items) ≡ ok items
unfolding items_from_pb
items-items [] h = refl
items-items (item ∷ items) h =
    rw (types-texts item.types h.0.0, tags-texts item.tags h.0.1 h.0.2, items-items items h.1) refl

query-query : (q : Query) → IsQuery q → query_from_pb (query_to_pb q) ≡ ok q
unfolding query_from_pb query_to_pb
query-query Query.all h = refl
query-query (Query.items items) h = rw (items-items items h) refl

condition_fields :
    (q : Query) (after : Position) (exists : Option Query)
    → IsQuery q
    → IsOptional exists
    → condition_from_pb (
        condition_to_pb
          (record { fail_if_events_match = q; after = after; fail_if_exists = exists }))
      ≡ ok (record { fail_if_events_match = q; after = after; fail_if_exists = exists })
unfolding condition_from_pb condition_to_pb
condition_fields q after none h k = rw (query-query q h) refl
condition_fields q after (some exists) h k = rw (query-query q h, query-query exists k) refl

-- An append condition whose queries hold names that are accepted and tag sets in order: its wire
-- message converts back to it.
pub condition_from_pb-condition_to_pb :
    (condition : AppendCondition)
    → IsCondition condition
    → condition_from_pb (condition_to_pb condition) ≡ ok condition
condition_from_pb-condition_to_pb c h =
    condition_fields c.fail_if_events_match c.after c.fail_if_exists h.0 h.1
