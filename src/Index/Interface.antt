-- ===== src/Index/Interface.antt =====
-- The trait SegmentIndex of crates/tephra/src/index/mod.rs: one segment's index that the evaluator
-- runs over, and what an index of given events promises.
use tephra.Prelude.{ℕ, ◌<◌, ◌≡◌, Bool, false, List, Option, none, some, length, get_elem?, ◌==◌}
use tephra.Prelude.Str.{Str, str_eq, mem}
use tephra.Types.Position.{Position}
use tephra.Event.{EventRef, event_type, tags}
use tephra.Index.Rising.{num_mem, RisingFrom}

pub record SegmentIndex : Type 0 where
  pub base : Position
  pub len : ℕ
  pub term_postings : Str → Option (List ℕ)
  pub term_len : Str → Option ℕ
  pub type_id : Str → Option ℕ
  pub type_at : ℕ → ℕ

-- Whether the event at a local position carries `tag`, and whether it has the type `name`.
abbrev pub tag_at : Str → List EventRef → ℕ → Bool
tag_at tag es local = elim (get_elem? es local) [ none ↦ false | some e ↦ mem tag (tags e) ]

abbrev pub type_is : Str → List EventRef → ℕ → Bool
type_is name es local = elim (get_elem? es local) [
  | none ↦ false
  | some e ↦ str_eq name (event_type e)
]

-- The postings of a term are the rising local positions of the events that carry the tag.
abbrev pub IsPostings : Option (List ℕ) → Str → List EventRef → Type 0
IsPostings none tag es = (local : ℕ) → tag_at tag es local ≡ false
IsPostings (some ps) tag es =
    RisingFrom 0 ps × ((local : ℕ) → num_mem local ps ≡ tag_at tag es local)

-- A type's id stands in the column exactly at the events of that type.
abbrev pub IsType : (ℕ → ℕ) → Option ℕ → Str → List EventRef → Type 0
IsType type_at none name es = (local : ℕ) → type_is name es local ≡ false
IsType type_at (some id) name es =
    (local : ℕ) → local < length es → (id == type_at local) ≡ type_is name es local

-- The contract of an index over the events `es`.
pub record Indexes (idx : SegmentIndex) (es : List EventRef) : Type 0 where
  pub len : idx.len ≡ length es
  pub terms : (tag : Str) → IsPostings (idx.term_postings tag) tag es
  pub types : (name : Str) → IsType idx.type_at (idx.type_id name) name es
