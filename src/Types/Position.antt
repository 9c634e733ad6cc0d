-- ===== src/Types/Position.antt =====
-- crates/tephra-types/src/position.rs, and PositionRange of crates/tephra/src/log/set.rs.
-- A position is its u64 value; arithmetic wraps as in a release build.
use tephra.Prelude.{ℕ, ◌+◌, ◌-◌, ◌%◌, ◌^◌, ◌<◌, ◌≤◌, ◌≡◌, arith}

abbrev pub Position : Type 0
Position = ℕ

abbrev pub u64_mod : ℕ
u64_mod = 2 ^ 64

abbrev pub u32_mod : ℕ
u32_mod = 2 ^ 32

abbrev pub u64_max : ℕ
u64_max = 2 ^ 64 - 1

abbrev pub u32_max : ℕ
u32_max = 2 ^ 32 - 1

abbrev pub u16_max : ℕ
u16_max = 2 ^ 16 - 1

abbrev pub zero_position : Position
zero_position = 0

-- Position::next
unfoldable pub next : Position → Position
next p = (p + 1) % u64_mod

-- impl Add<u64> for Position
unfoldable pub add : Position → ℕ → ℕ
add p n = (p + n) % u64_mod

-- impl Sub for Position, and offset_from
unfoldable pub sub : Position → ℕ → ℕ
sub p n = (p + u64_mod - n) % u64_mod

-- u64::saturating_add and u64::saturating_sub
unfoldable pub saturating_add : ℕ → ℕ → ℕ
saturating_add a b = Prim.Native.Nat.min (a + b) u64_max

unfoldable pub saturating_sub : ℕ → ℕ → ℕ
saturating_sub a b = a - b

-- An inclusive range of positions.
pub record PositionRange : Type 0 where
  pub first : Position
  pub last : Position

-- PositionRange::count
unfoldable pub count : PositionRange → ℕ
count r = add (sub r.last r.first) 1

pub next-eq : (p : Position) → p + 1 < u64_mod → next p ≡ p + 1
unfolding next
next-eq p h = omega arith

pub add-eq : (p : Position) (n : ℕ) → p + n < u64_mod → add p n ≡ p + n
unfolding add
add-eq p n h = omega arith

pub sub-eq : (p : Position) (n : ℕ) → n ≤ p → p < u64_mod → sub p n ≡ p - n
unfolding sub
sub-eq p n h k = omega arith
