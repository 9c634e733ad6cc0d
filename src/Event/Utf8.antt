-- ===== src/Event/Utf8.antt =====
-- std::str::from_utf8, which `EventRef::from_bytes` of crates/tephra/src/event.rs calls: whether
-- bytes are well-formed UTF-8. A machine over the bytes keeps how many continuation bytes are due
-- and the bounds on the next one.
use tephra.Prelude.{
  ℕ, zero, suc, ◌≡◌, refl, Bool, true, false, [], ◌∷◌, Option, none, some, ◌&&◌, leb, ltb, ◌==◌,
  if◌then◌else◌,
}
use tephra.Prelude.Str.{Bytes}

record Due : Type 0 where
  pub count : ℕ
  pub low : ℕ
  pub high : ℕ

abbrev due : ℕ → ℕ → ℕ → Option Due
due n lo hi = some (record { count = n; low = lo; high = hi })

-- The first byte of a sequence.
lead : ℕ → Option Due
lead b =
    if ltb b 0x80
    then due 0 0x80 0xbf
    else if ltb b 0xc2
    then none
    else if ltb b 0xe0
    then due 1 0x80 0xbf
    else if b == 0xe0
    then due 2 0xa0 0xbf
    else if b == 0xed
    then due 2 0x80 0x9f
    else if ltb b 0xf0
    then due 2 0x80 0xbf
    else if b == 0xf0
    then due 3 0x90 0xbf
    else if ltb b 0xf4
    then due 3 0x80 0xbf
    else if b == 0xf4
    then due 3 0x80 0x8f
    else none

-- One byte, from the state `d`.
advance : ℕ → ℕ → ℕ → ℕ → Option Due
unfolding lead
advance zero lo hi b = lead b
advance (suc n) lo hi b = if leb lo b && leb b hi then due n 0x80 0xbf else none

run : Due → Bytes → Bool
unfolding advance
run d [] = d.count == 0
run d (b ∷ bs) = elim (advance d.count d.low d.high b) [ none ↦ false | some d' ↦ run d' bs ]

unfoldable pub is_utf8 : Bytes → Bool
unfolding run
is_utf8 bs = run (record { count = 0; low = 0x80; high = 0xbf }) bs

-- "né€" and a truncated "é".
is_utf8_accepts : is_utf8 (0x6e ∷ 0xc3 ∷ 0xa9 ∷ 0xe2 ∷ 0x82 ∷ 0xac ∷ []) ≡ true
unfolding is_utf8
is_utf8_accepts = refl

is_utf8_rejects : is_utf8 (0x6e ∷ 0xc3 ∷ []) ≡ false
unfolding is_utf8
is_utf8_rejects = refl
