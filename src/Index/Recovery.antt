-- ===== src/Index/Recovery.antt =====
-- crates/tephra/src/index/recovery.rs: rebuilding an index from the events of a log segment. A feed out
-- of order is `none`, since the tail's assertion stops the program.
pub mod Rebuild
use tephra.Prelude.{ℕ, ◌+◌, Bool, true, false, List, [], ◌∷◌, Option, none, some, if◌then◌else◌}
use tephra.Prelude.Result.{ok, err}
use tephra.Types.Position.{Position}
use tephra.Event.{EventRef}
use tephra.Index.Tail.{ActiveTail, fed_out_of_order, too_many_types}
use tephra.Index.Tail as Tail

-- Rebuilt
pub record Rebuilt : Type 0 where
  pub index : ActiveTail
  pub count : ℕ
  pub unindexable : Bool

pub record Rebuilder : Type 0 where
  pub index : ActiveTail
  pub count : ℕ
  pub unindexable : Bool

-- Rebuilder::new
unfoldable pub new : Position → Rebuilder
unfolding Tail.new
new base = record { index = Tail.new base; count = 0; unindexable = false }

-- Rebuilder::feed
unfoldable pub feed : Rebuilder → Position → EventRef → Option Rebuilder
unfolding Tail.push
feed b position event =
    let counted = record b { count = b.count + 1 } in
    if b.unindexable then some counted else elim (Tail.push b.index position event) [
      | ok t ↦ some (record counted { index = t })
      | err fed_out_of_order ↦ none
      | err (too_many_types limit) ↦ some (record counted { unindexable = true })
    ]

-- Rebuilder::finish
abbrev pub finish : Rebuilder → Rebuilt
finish b = record { index = b.index; count = b.count; unindexable = b.unindexable }

-- The loop of rebuild.
unfoldable pub feed_all : Rebuilder → List (Position × EventRef) → Option Rebuilder
unfolding feed
feed_all b [] = some b
feed_all b (r ∷ records) = elim (feed b r.0 r.1) [ none ↦ none | some b' ↦ feed_all b' records ]

-- rebuild
unfoldable pub rebuild : Position → List (Position × EventRef) → Option Rebuilt
unfolding new feed_all
rebuild base records = elim (feed_all (new base) records) [ none ↦ none | some b ↦ some (finish b) ]
