-- ===== src/Tips/MaxMap.antt =====
-- The hash map of crates/tephra/src/writer/tips.rs from tags to their highest position.
use tephra.Prelude.{
  ◌≤◌, ◌≡◌, List, [], ◌∷◌, Option, none, some, ltb, arith, keep, if◌then◌else◌, max, Bool-cases,
  Option-cases, inl, inr, All,
}
use tephra.Prelude.Str.{Str, str_eq, str_eq_iff, str_eq_self}
use native.Mathlib.Nat.{le_trans}
use tephra.Types.Position.{Position}

abbrev pub PositionMap : Type 0
PositionMap = List (Str × Position)

-- HashMap::get
unfoldable pub lookup : Str → PositionMap → Option Position
unfolding str_eq
lookup k [] = none
lookup k ((j, p) ∷ m) = if str_eq j k then some p else lookup k m

-- `entry(k).and_modify(|p| if position > *p { *p = position }).or_insert(position)`
unfoldable pub record_max : Str → Position → PositionMap → PositionMap
unfolding str_eq
record_max k position [] = (k, position) ∷ []
record_max k position ((j, p) ∷ m) =
    if str_eq j k
    then (j, if ltb p position then position else p) ∷ m
    else (j, p) ∷ record_max k position m

-- The loop of `absorb`: every entry of the first map into the second.
unfoldable pub merge_max : PositionMap → PositionMap → PositionMap
unfolding record_max
merge_max [] m = m
merge_max ((k, p) ∷ new) m = merge_max new (record_max k p m)

-- `retain(|_, pos| pos > floor)`
unfoldable pub retain_above : Position → PositionMap → PositionMap
retain_above floor m = keep (λ (entry : Str × Position). ltb floor entry.1) m

-- What is recorded for `k`, or the floor.
abbrev pub found_or : Position → Option Position → Position
found_or floor none = floor
found_or floor (some p) = p

pub lookup-record_max :
    (k j : Str) (position : Position) (m : PositionMap)
    → lookup j (record_max k position m)
      ≡ (if str_eq k j then some (max position (found_or position (lookup k m))) else lookup j m)
unfolding lookup record_max
lookup-record_max k j position [] = ground arith
lookup-record_max k j position ((i, p) ∷ m) =
    ground (arith, str_eq_iff i k, str_eq_iff i j, str_eq_iff k j, lookup-record_max k j position m)

-- Every recorded position is at or above `floor`.
abbrev pub AllFrom : Position → PositionMap → Type 0
AllFrom floor m = All (λ (entry : Str × Position). floor ≤ entry.1) m

pub AllFrom-weaken : (a b : Position) (m : PositionMap) → a ≤ b → AllFrom b m → AllFrom a m
AllFrom-weaken a b [] h k = tt
AllFrom-weaken a b ((j, q) ∷ m) h k = (le_trans h k.0, AllFrom-weaken a b m h k.1)

pub record_max-AllFrom :
    (floor : Position) (k : Str) (p : Position) (m : PositionMap)
    → floor ≤ p
    → AllFrom floor m
    → AllFrom floor (record_max k p m)
unfolding record_max
record_max-AllFrom floor k p [] h a = (h, tt)
record_max-AllFrom floor k p ((j, q) ∷ m) h a = ground (arith, record_max-AllFrom floor k p m h a.1)

-- A record raises what is found, and what is found after it is at least what was recorded.
pub record_max-le :
    (floor : Position) (k : Str) (p : Position) (m : PositionMap) (j : Str)
    → floor ≤ p
    → found_or floor (lookup j m) ≤ found_or floor (lookup j (record_max k p m))
record_max-le floor k p m j h =
    ground (arith, lookup-record_max k j p m, str_eq_iff k j, Option-cases (lookup k m))

pub record_max_self :
    (floor : Position) (k : Str) (p : Position) (m : PositionMap)
    → p ≤ found_or floor (lookup k (record_max k p m))
record_max_self floor k p m = ground (arith, lookup-record_max k k p m, str_eq_self k)

pub merge_max-le :
    (floor : Position) (new m : PositionMap) (j : Str)
    → AllFrom floor new
    → found_or floor (lookup j m) ≤ found_or floor (lookup j (merge_max new m))
unfolding merge_max
merge_max-le floor [] m j a = omega arith
merge_max-le floor ((k, p) ∷ new) m j a =
    omega (arith, record_max-le floor k p m j a.0, merge_max-le floor new (record_max k p m) j a.1)

pub merge_max-new :
    (floor : Position) (new m : PositionMap) (j : Str) (p : Position)
    → AllFrom floor new
    → lookup j new ≡ some p
    → p ≤ found_or floor (lookup j (merge_max new m))
unfolding lookup merge_max
merge_max-new floor [] m j p a h = cc
merge_max-new floor ((k, q) ∷ new) m j p a h = elim (Bool-cases (str_eq k j)) [
  | inl e ↦
      let same : k ≡ j = (str_eq_iff k j).0 e in
      let it : q ≡ p = ground (arith, h, e) in
      rw (← it, ← same)
        (le_trans (record_max_self floor k q m) (merge_max-le floor new (record_max k q m) k a.1))
  | inr e ↦ merge_max-new floor new (record_max k q m) j p a.1 (ground (arith, h, e))
]

-- What is retained is above the floor, so dropping the rest for a floor that covers it loses no
-- bound.
pub floor-le-found :
    (floor : Position) (m : PositionMap) (j : Str)
    → floor ≤ found_or floor (lookup j (retain_above floor m))
unfolding lookup retain_above
floor-le-found floor [] j = omega arith
floor-le-found floor ((k, p) ∷ m) j = ground (arith, floor-le-found floor m j)

pub retain_above-le :
    (old floor : Position) (m : PositionMap) (j : Str)
    → old ≤ floor
    → found_or old (lookup j m) ≤ found_or floor (lookup j (retain_above floor m))
unfolding lookup retain_above
retain_above-le old floor [] j h = h
retain_above-le old floor ((k, p) ∷ m) j h =
    ground (arith, floor-le-found floor m j, retain_above-le old floor m j h)
