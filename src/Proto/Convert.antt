-- ===== src/Proto/Convert.antt =====
-- crates/tephra-proto/src/convert.rs: queries and append conditions to and from their wire messages, which
-- are those of crates/tephra-proto/proto/tephra.proto. A string field is its bytes.
pub mod RoundTrip
use tephra.Prelude.{List, [], ◌∷◌, Option, none, some, Bool, true, false, if◌then◌else◌, map}
use tephra.Prelude.Str.{Str}
use tephra.Prelude.Result.{Result, ok, err, ◌>>=◌, map_err}
use tephra.Types.Position.{Position}
use tephra.Types.Name.{EventType, Tag, NameError, new_event_type, new_tag}
use tephra.Types.Tags
use tephra.Types.Tags.{Tags, TagsError}
use tephra.Types.Query.{
  QueryItem, Query, AppendCondition, new_condition, with_after, with_fail_if_exists,
}
use tephra.Event.Utf8.{is_utf8}

-- The messages QueryItem, Query and AppendCondition.
pub record PbQueryItem : Type 0 where
  pub types : List Str
  pub tags : List Str

pub record PbQuery : Type 0 where
  pub all : Bool
  pub items : List PbQueryItem

pub record PbAppendCondition : Type 0 where
  pub fail_if_events_match : PbQuery
  pub after : Position
  pub fail_if_exists : Option PbQuery

pub data ConvertError : Type 0 where
  invalid_utf8 : ConvertError
  name : NameError → ConvertError
  tags : TagsError → ConvertError

unfoldable pub as_str : Str → Result ConvertError Str
as_str view = if is_utf8 view then ok view else err invalid_utf8

-- The loop of tags_from_pb
unfoldable pub collect_tags : List Str → Result ConvertError (List Tag)
unfolding as_str new_tag
collect_tags [] = ok []
collect_tags (tag ∷ rest) = do
  s ← as_str tag
  t ← map_err name (new_tag s)
  out ← collect_tags rest
  ok (t ∷ out)

-- tags_from_pb
unfoldable pub tags_from_pb : List Str → Result ConvertError Tags
unfolding collect_tags Tags.new
tags_from_pb ts = collect_tags ts >>= λ out. map_err tags (Tags.new out)

-- types_from_pb
unfoldable pub types_from_pb : List Str → Result ConvertError (List EventType)
unfolding as_str new_event_type
types_from_pb [] = ok []
types_from_pb (ty ∷ rest) = do
  s ← as_str ty
  t ← map_err name (new_event_type s)
  out ← types_from_pb rest
  ok (t ∷ out)

-- The loop of query_from_pb
unfoldable pub items_from_pb : List PbQueryItem → Result ConvertError (List QueryItem)
unfolding types_from_pb tags_from_pb
items_from_pb [] = ok []
items_from_pb (item ∷ rest) = do
  types ← types_from_pb item.types
  ts ← tags_from_pb item.tags
  items ← items_from_pb rest
  ok (record { types = types; tags = ts } ∷ items)

unfoldable pub query_from_pb : PbQuery → Result ConvertError Query
unfolding items_from_pb
query_from_pb query =
    if query.all
    then ok Query.all
    else items_from_pb query.items >>= λ items. ok (Query.items items)

-- query_to_pb
abbrev pub item_to_pb : QueryItem → PbQueryItem
item_to_pb item = record { types = item.types; tags = item.tags }

unfoldable pub query_to_pb : Query → PbQuery
query_to_pb Query.all = record { all = true; items = [] }
query_to_pb (Query.items items) = record { all = false; items = map item_to_pb items }

unfoldable pub condition_from_pb : PbAppendCondition → Result ConvertError AppendCondition
unfolding query_from_pb
condition_from_pb condition = do
  query ← query_from_pb condition.fail_if_events_match
  let cond = with_after (new_condition query) condition.after
  elim condition.fail_if_exists [
    | none ↦ ok cond
    | some exists ↦ query_from_pb exists >>= λ q. ok (with_fail_if_exists cond q)
  ]

unfoldable pub condition_to_pb : AppendCondition → PbAppendCondition
unfolding query_to_pb
condition_to_pb condition = record {
  fail_if_events_match = query_to_pb condition.fail_if_events_match;
  after = condition.after;
  fail_if_exists = elim condition.fail_if_exists [
    | none ↦ none
    | some exists ↦ some (query_to_pb exists)
  ];
}
