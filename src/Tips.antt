-- ===== src/Tips.antt =====
-- crates/tephra/src/writer/tips.rs: the fast-reject in front of the condition scan. The two hash
-- maps are association lists; the code depends on neither their order nor their capacity.
pub mod MaxMap
pub mod Durable
pub mod Staged
use tephra.Prelude.{
  ℕ, ◌^◌, ◌≡◌, ◌⊎◌, inl, inr, refl, Bool, true, false, List, [], ◌∷◌, Option, none, some, any, all,
  is_empty, ltb, leb, length, keep, if◌then◌else◌, max,
}
use tephra.Prelude.Str.{Str}
use tephra.Types.Position.{Position, saturating_sub}
use tephra.Types.Query.{QueryItem, Query}
use tephra.Tips.MaxMap.{PositionMap, lookup, record_max, merge_max, retain_above}

abbrev pub default_max_entries : ℕ
default_max_entries = 2 ^ 20

pub data Verdict : Type 0 where
  definitely_no_match unknown : Verdict

pub Verdict-cases : (v : Verdict) → (v ≡ definitely_no_match) ⊎ (v ≡ unknown)
Verdict-cases definitely_no_match = inl refl
Verdict-cases unknown = inr refl

-- Durable, lossy knowledge: the highest position seen for a tag, and a floor for the others.
pub record TagTips : Type 0 where
  pub max_pos : PositionMap
  pub window_floor : Position
  pub window : ℕ
  pub max_entries : ℕ

-- Complete knowledge of one drain window.
pub record StagedTips : Type 0 where
  pub tag_positions : PositionMap

-- TagTips::new
unfoldable pub new : Position → ℕ → TagTips
new floor window = record {
  max_pos = [];
  window_floor = floor;
  window = window;
  max_entries = default_max_entries;
}

-- TagTips::max_for
unfoldable pub max_for : TagTips → Str → Position
unfolding lookup
max_for tips tag = elim (lookup tag tips.max_pos) [ none ↦ tips.window_floor | some p ↦ p ]

-- TagTips::item_unknown
unfoldable pub item_unknown : TagTips → QueryItem → Position → Bool
unfolding max_for
item_unknown tips item after =
    if is_empty item.tags then true else all (λ t. ltb after (max_for tips t)) item.tags

-- The loop of TagTips::may_match over a query's items.
unfoldable pub items_verdict : TagTips → List QueryItem → Position → Verdict
unfolding item_unknown
items_verdict tips [] after = definitely_no_match
items_verdict tips (item ∷ items) after =
    if item_unknown tips item after then unknown else items_verdict tips items after

-- TagTips::may_match
unfoldable pub may_match : TagTips → Query → Position → Verdict
unfolding items_verdict
may_match tips Query.all after = unknown
may_match tips (Query.items items) after = items_verdict tips items after

-- TagTips::evict_if_needed
unfoldable pub evict_if_needed : TagTips → Position → TagTips
unfolding retain_above saturating_sub
evict_if_needed tips next_position =
    let target = saturating_sub next_position tips.window in
    let new_floor = max tips.window_floor target in
    if leb (length tips.max_pos) tips.max_entries
    then tips
    else record tips { window_floor = new_floor; max_pos = retain_above new_floor tips.max_pos }

-- TagTips::absorb
unfoldable pub absorb : TagTips → StagedTips → Position → TagTips
unfolding merge_max evict_if_needed
absorb tips staged next_position =
    evict_if_needed (record tips { max_pos = merge_max staged.tag_positions tips.max_pos })
      next_position

-- StagedTips::new
abbrev pub no_staged : StagedTips
no_staged = record { tag_positions = [] }

-- StagedTips::record
unfoldable pub record_tag : StagedTips → Str → Position → StagedTips
unfolding record_max
record_tag staged tag position = record staged {
  tag_positions = record_max tag position staged.tag_positions;
}

-- StagedTips::contains
unfoldable pub contains : StagedTips → Str → Bool
unfolding lookup
contains staged tag = elim (lookup tag staged.tag_positions) [ none ↦ false | some p ↦ true ]

-- StagedTips::may_conflict
unfoldable pub may_conflict : StagedTips → Query → Bool
unfolding contains
may_conflict staged Query.all = if is_empty staged.tag_positions then false else true
may_conflict staged (Query.items items) =
    if is_empty staged.tag_positions
    then false
    else any (λ (item : QueryItem). all (contains staged) item.tags) items
