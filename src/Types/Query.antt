-- ===== src/Types/Query.antt =====
-- crates/tephra-types/src/query.rs: queries and append conditions, with their constructors.
use tephra.Prelude.{List, [], ◌∷◌, Option, none, some}
use tephra.Types.Position.{Position, zero_position}
use tephra.Types.Name.{EventType}
use tephra.Types.Tags.{Tags, no_tags}

-- `types` lists the accepted types (empty: any type), `tags` what the event must all carry.
pub record QueryItem : Type 0 where
  pub types : List EventType
  pub tags : Tags

abbrev pub of_types : List EventType → QueryItem
of_types types = record { types = types; tags = no_tags }

abbrev pub with_tags : Tags → QueryItem
with_tags tags = record { types = []; tags = tags }

pub data Query : Type 0 where
  all : Query
  items : List QueryItem → Query

-- Query::item
abbrev pub item : QueryItem → Query
item i = items (i ∷ [])

pub record AppendCondition : Type 0 where
  pub fail_if_events_match : Query
  pub after : Position
  pub fail_if_exists : Option Query

-- AppendCondition::new
abbrev pub new_condition : Query → AppendCondition
new_condition q = record { fail_if_events_match = q; after = zero_position; fail_if_exists = none }

-- AppendCondition::exists_only
abbrev pub exists_only : Query → AppendCondition
exists_only q = record {
  fail_if_events_match = items [];
  after = zero_position;
  fail_if_exists = some q;
}

-- AppendCondition::after and AppendCondition::fail_if_exists
abbrev pub with_after : AppendCondition → Position → AppendCondition
with_after c p = record c { after = p }

abbrev pub with_fail_if_exists : AppendCondition → Query → AppendCondition
with_fail_if_exists c q = record c { fail_if_exists = some q }
