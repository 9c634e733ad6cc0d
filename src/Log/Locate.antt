-- ===== src/Log/Locate.antt =====
-- SegmentSource::locate of crates/tephra/src/log/set.rs: the binary search over the segments' bases.
use tephra.Prelude.{
  ℕ, zero, suc, ◌+◌, ◌-◌, ◌/◌, ◌≤◌, ◌<◌, ◌≡◌, refl, sym, ap, ◌∙◌, false, List, [], ◌∷◌, ◌++◌,
  Option, none, some, if◌then◌else◌, ltb, leb, length, get_elem?, drop, is_empty, arith, Bool-cases,
  inl, inr,
}
use tephra.Types.Position.{Position}
use tephra.Log.{Segment, search_bases, locate}

-- The first segments, up to the first whose base is past `pos`.
abbrev pub before : List Segment → Position → ℕ
before [] pos = 0
before (s ∷ rest) pos =
    let more = before rest pos in if leb s.base_position pos then suc more else 0

-- The bases do not fall.
abbrev pub NonFalling : Position → List Segment → Type 0
NonFalling at [] = Unit
NonFalling at (s ∷ rest) = (at ≤ s.base_position) × NonFalling s.base_position rest

before-past :
    (segs : List Segment) (at pos : Position) → NonFalling at segs → pos < at → before segs pos ≡ 0
before-past [] at pos m h = refl
before-past (s ∷ rest) at pos m h = ground (arith, m.0)

before-le : (segs : List Segment) (pos : Position) → before segs pos ≤ length segs
before-le [] pos = omega arith
before-le (s ∷ rest) pos = ground (arith, before-le rest pos)

-- A segment's base is at or below `pos` just when it is one of those.
before-base :
    (segs : List Segment) (at pos : Position) (i : ℕ) (s : Segment)
    → NonFalling at segs
    → get_elem? segs i ≡ some s
    → leb s.base_position pos ≡ ltb i (before segs pos)
before-base [] at pos i s m h = cc
before-base (x ∷ segs) at pos zero s m h = ground (arith, h, Bool-cases (leb x.base_position pos))
before-base (x ∷ segs) at pos (suc i) s m h = ground (
  arith,
  before-base segs x.base_position pos i s m.1 h,
  before-past segs x.base_position pos m.1,
  Bool-cases (leb x.base_position pos),
)

abbrev pub last_of : ℕ → Option ℕ
last_of zero = none
last_of (suc n) = some n

get_elem?-below :
    (segs : List Segment) (i : ℕ) → i < length segs → (s : Segment) × (get_elem? segs i ≡ some s)
get_elem?-below [] i h = elim h [ ]
get_elem?-below (s ∷ segs) zero h = (s, refl)
get_elem?-below (s ∷ segs) (suc i) h = get_elem?-below segs i (omega arith)

-- The search ends at the last of them, when its fuel covers the window.
search_bases-eq :
    (fuel : ℕ) (segs : List Segment) (at pos : Position) (lo hi : ℕ)
    → NonFalling at segs
    → lo ≤ before segs pos
    → before segs pos ≤ hi
    → hi ≤ length segs
    → hi ≤ lo + fuel
    → search_bases fuel segs pos lo hi (last_of lo) ≡ last_of (before segs pos)
unfolding search_bases
search_bases-eq zero segs at pos lo hi m a b c d = ap last_of (omega arith)
search_bases-eq (suc fuel) segs at pos lo hi m a b c d = elim (Bool-cases (ltb lo hi)) [
  | inr e ↦ rw e (ap last_of (ground (arith, e)))
  | inl e ↦
      let (s, here) = get_elem?-below segs (lo + (hi - lo) / 2) (ground (arith, e)) in
      let side = before-base segs at pos (lo + (hi - lo) / 2) s m here in
      elim (Bool-cases (leb s.base_position pos)) [
        | inl l ↦
            let next : suc (lo + (hi - lo) / 2) ≡ lo + (hi - lo) / 2 + 1 = omega arith in
            rw (e, here, l)
              (ap (λ n. search_bases fuel segs pos n hi (some (lo + (hi - lo) / 2))) (sym next)
                ∙ search_bases-eq fuel segs at pos (suc (lo + (hi - lo) / 2)) hi m
                    (ground (arith, side, l)) b c (omega arith))
        | inr l ↦
            rw (e, here, l)
              (search_bases-eq fuel segs at pos lo (lo + (hi - lo) / 2) m a
                (ground (arith, side, l)) (ground (arith, e)) (ground (arith, e)))
      ]
]

before-snoc :
    (sealed : List Segment) (active : Segment) (at pos : Position)
    → NonFalling at (sealed ++ active ∷ [])
    → before (sealed ++ active ∷ []) pos
      ≡ (if leb active.base_position pos then suc (length sealed) else before sealed pos)
before-snoc [] active at pos m = ground (arith, Bool-cases (leb active.base_position pos))
before-snoc (x ∷ sealed) active at pos m = ground (
  arith,
  before-snoc sealed active x.base_position pos m.1,
  before-past (sealed ++ active ∷ []) x.base_position pos m.1,
  Bool-cases (leb x.base_position pos),
  Bool-cases (leb active.base_position pos),
)

NonFalling-left :
    (sealed : List Segment) (active : Segment) (at : Position)
    → NonFalling at (sealed ++ active ∷ [])
    → NonFalling at sealed
NonFalling-left [] active at m = tt
NonFalling-left (x ∷ sealed) active at m = (m.0, NonFalling-left sealed active x.base_position m.1)

-- Over segments whose bases never fall, for every position that is not zero: the binary search of
-- locate finds the last segment whose base is at or below the position, and none when every base
-- is above it.
pub locate-eq-last_of :
    (sealed : List Segment) (active : Segment) (at pos : Position)
    → NonFalling at (sealed ++ active ∷ [])
    → 1 ≤ pos
    → locate sealed active pos ≡ last_of (before (sealed ++ active ∷ []) pos)
unfolding locate
locate-eq-last_of sealed active at pos m h = elim (Bool-cases (leb active.base_position pos)) [
  | inl l ↦ ground (arith, l, before-snoc sealed active at pos m)
  | inr l ↦ ground (
    arith,
    l,
    before-snoc sealed active at pos m,
    search_bases-eq (length sealed) sealed at pos 0 (length sealed)
        (NonFalling-left sealed active at m) (omega arith) (before-le sealed pos) (omega arith)
        (omega arith),
  )
]

-- The segments from the last one whose base is at or below `pos`, by going through them.
abbrev pub owner_on : List Segment → Position → List Segment
owner_on [] pos = []
owner_on (s ∷ rest) pos =
    let later = owner_on rest pos in
    if is_empty later then (if leb s.base_position pos then s ∷ rest else []) else later

owner_on-none :
    (segs : List Segment) (at pos : Position)
    → NonFalling at segs
    → before segs pos ≡ 0
    → owner_on segs pos ≡ []
owner_on-none [] at pos m h = refl
owner_on-none (s ∷ rest) at pos m h = elim (Bool-cases (leb s.base_position pos)) [
  | inl l ↦ absurd (ground (arith, h, l))
  | inr l ↦ ground (
    arith,
    l,
    owner_on-none rest s.base_position pos m.1
        (before-past rest s.base_position pos m.1 (ground (arith, l))),
  )
]

drop-not_empty : (n : ℕ) (segs : List Segment) → n < length segs → is_empty (drop n segs) ≡ false
drop-not_empty n [] h = elim h [ ]
drop-not_empty zero (s ∷ segs) h = refl
drop-not_empty (suc n) (s ∷ segs) h = drop-not_empty n segs (omega arith)

owner_on-some :
    (segs : List Segment) (at pos : Position) (n : ℕ)
    → NonFalling at segs
    → before segs pos ≡ suc n
    → owner_on segs pos ≡ drop n segs
owner_on-some [] at pos n m h = absurd (omega (arith, h))
owner_on-some (s ∷ rest) at pos zero m h = elim (Bool-cases (leb s.base_position pos)) [
  | inl l ↦ ground (arith, l, owner_on-none rest s.base_position pos m.1 (ground (arith, h, l)))
  | inr l ↦ absurd (ground (arith, h, l))
]
owner_on-some (s ∷ rest) at pos (suc n) m h = elim (Bool-cases (leb s.base_position pos)) [
  | inl l ↦
      let more : before rest pos ≡ suc n = ground (arith, h, l) in
      ground (
        arith,
        l,
        owner_on-some rest s.base_position pos n m.1 more,
        drop-not_empty n rest (omega (arith, more, before-le rest pos)),
      )
  | inr l ↦ absurd (ground (arith, h, l))
]

-- The segment that locating finds is the one that going through them finds.
pub locate-owner_on :
    (sealed : List Segment) (active : Segment) (at pos : Position) (owner : Segment)
    (rest : List Segment)
    → NonFalling at (sealed ++ active ∷ [])
    → 1 ≤ pos
    → owner_on (sealed ++ active ∷ []) pos ≡ owner ∷ rest
    → (idx : ℕ) × (locate sealed active pos ≡ some idx)
      × (drop idx (sealed ++ active ∷ []) ≡ owner ∷ rest)
locate-owner_on sealed active at pos owner rest m h o = go (before (sealed ++ active ∷ []) pos) refl
  where
    go :
        (n : ℕ)
        → before (sealed ++ active ∷ []) pos ≡ n
        → (idx : ℕ) × (locate sealed active pos ≡ some idx)
          × (drop idx (sealed ++ active ∷ []) ≡ owner ∷ rest)
    go zero e = absurd (cc (o, owner_on-none (sealed ++ active ∷ []) at pos m e))
    go (suc n) e = (
      n,
      locate-eq-last_of sealed active at pos m h ∙ ap last_of e,
      sym (owner_on-some (sealed ++ active ∷ []) at pos n m e) ∙ o,
    )
