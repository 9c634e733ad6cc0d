-- ===== src/Index/Tail/Names.antt =====
-- The type names that a tail has interned (intern_type of crates/tephra/src/index/tail.rs): they are types
-- of its events, each once, so that a refusal means too many types.
use tephra.Prelude.{
  ℕ, ◌⊎◌, ◌+◌, ◌<◌, ◌≡◌, refl, sym, ap, ◌∙◌, subst, true, false, List, [], ◌∷◌, ◌++◌, none, length,
  map, All, ltb, ◌==◌, arith, Bool-cases, Option-cases, inl, inr,
}
use tephra.Prelude.Str.{Str, str_eq, str_eq_self, mem}
use tephra.Prelude.Result.{ok, err, Result-cases}
use tephra.Types.Position.{Position, add, u16_max}
use tephra.Event.{EventRef, event_type, tags}
use tephra.Tips.MaxMap.{lookup}
use tephra.Index.Interner.{Interner}
use tephra.Index.Tail.{ActiveTail, new, push, intern_type, PushError, too_many_types}
use tephra.Index.Tail.Feed.{index_tags-rest}

abbrev pub NoDup : List Str → Type 0
NoDup [] = Unit
NoDup (n ∷ names) = (mem n names ≡ false) × NoDup names

abbrev pub types_of : List EventRef → List Str
types_of es = map event_type es

-- The events have more types than a u16 can tell apart.
abbrev pub TooManyTypes : List EventRef → Type 0
TooManyTypes es =
    (names : List Str) × NoDup names
    × All (λ n. mem n (types_of es) ≡ true) names
    × (u16_max + 1 < length names)

abbrev names_of : Interner → List Str
names_of m = map (λ (e : Str × ℕ). e.0) m

-- The interned names are types of the events, each once.
pub record Named (t : ActiveTail) (es : List EventRef) : Type 0 where
  pub distinct : NoDup (names_of t.type_ids)
  pub known : All (λ n. mem n (types_of es) ≡ true) (names_of t.type_ids)

length-names_of : (m : Interner) → length (names_of m) ≡ length m
length-names_of [] = refl
length-names_of (e ∷ m) = omega (arith, length-names_of m)

lookup-names_of : (k : Str) (m : Interner) → lookup k m ≡ none → mem k (names_of m) ≡ false
unfolding lookup
lookup-names_of k [] h = refl
lookup-names_of k ((n, i) ∷ m) h = elim (Bool-cases (str_eq n k)) [
  | inl e ↦ absurd (ground (arith, h, e))
  | inr e ↦ ground (arith, e, lookup-names_of k m (ground (arith, h, e)))
]

mem-append_left : (n : Str) (xs ys : List Str) → mem n xs ≡ true → mem n (xs ++ ys) ≡ true
mem-append_left n [] ys h = cc
mem-append_left n (x ∷ xs) ys h = elim (Bool-cases (str_eq x n)) [
  | inl e ↦ ground (arith, e)
  | inr e ↦ ground (arith, e, mem-append_left n xs ys (ground (arith, h, e)))
]

mem-append_last : (n : Str) (xs : List Str) → mem n (xs ++ n ∷ []) ≡ true
mem-append_last n [] = ground (arith, str_eq_self n)
mem-append_last n (x ∷ xs) = ground (arith, mem-append_last n xs, Bool-cases (str_eq x n))

map-append : (es fs : List EventRef) → types_of (es ++ fs) ≡ types_of es ++ types_of fs
map-append [] fs = refl
map-append (e ∷ es) fs = ap (λ l. event_type e ∷ l) (map-append es fs)

known_more :
    (names : List Str) (es : List EventRef) (e : EventRef)
    → All (λ n. mem n (types_of es) ≡ true) names
    → All (λ n. mem n (types_of (es ++ e ∷ [])) ≡ true) names
known_more [] es e h = tt
known_more (n ∷ names) es e h = (
  ap (mem n) (map-append es (e ∷ [])) ∙ mem-append_left n (types_of es) (event_type e ∷ []) h.0,
  known_more names es e h.1,
)

-- What interning does to the names.
intern_type-names :
    (t t' : ActiveTail) (name : Str) (id : ℕ)
    → intern_type t name ≡ ok (t', id)
    → (t'.type_ids ≡ t.type_ids)
      ⊎ ((lookup name t.type_ids ≡ none) × (t'.type_ids ≡ (name, length t.type_ids) ∷ t.type_ids))
unfolding intern_type
intern_type-names t t' name id h = elim (Option-cases (lookup name t.type_ids)) [
  | inr (i, there) ↦ inl (ground (arith, h, there))
  | inl absent ↦ elim (Bool-cases (ltb u16_max (length t.type_ids))) [
    | inl full ↦ absurd (ground (arith, h, absent, full))
    | inr room ↦ inr (absent, ground (arith, h, absent, room))
  ]
]

intern_type-full :
    (t : ActiveTail) (name : Str) (x : PushError)
    → intern_type t name ≡ err x
    → (lookup name t.type_ids ≡ none) × (u16_max < length t.type_ids)
unfolding intern_type
intern_type-full t name x h = elim (Option-cases (lookup name t.type_ids)) [
  | inr (i, there) ↦ absurd (ground (arith, h, there))
  | inl absent ↦ elim (Bool-cases (ltb u16_max (length t.type_ids))) [
    | inl full ↦ (absent, ground (arith, full))
    | inr room ↦ absurd (ground (arith, h, absent, room))
  ]
]

push-names :
    (t t' : ActiveTail) (position : Position) (e : EventRef)
    → push t position e ≡ ok t'
    → (t'.type_ids ≡ t.type_ids)
      ⊎ ((lookup (event_type e) t.type_ids ≡ none)
          × (t'.type_ids ≡ (event_type e, length t.type_ids) ∷ t.type_ids))
unfolding push
push-names t t' position e h = elim (Bool-cases (position == add t.base (length t.type_column))) [
  | inl at ↦ elim (Result-cases (intern_type t (event_type e))) [
    | inl ((u, i), found) ↦
        let rest = index_tags-rest (tags e) u (length t.type_column) in
        let same : t'.type_ids ≡ u.type_ids = ground (arith, at, found, h, rest.2) in
        elim (intern_type-names t u (event_type e) i found) [
          | inl k ↦ inl (same ∙ k)
          | inr (absent, k) ↦ inr (absent, same ∙ k)
        ]
    | inr (x, full) ↦ absurd (ground (arith, at, full, h))
  ]
  | inr off ↦ absurd (ground (arith, off, h))
]

push-full :
    (t : ActiveTail) (position : Position) (e : EventRef) (limit : ℕ)
    → push t position e ≡ err (too_many_types limit)
    → (lookup (event_type e) t.type_ids ≡ none) × (u16_max < length t.type_ids)
unfolding push
push-full t position e limit h = elim (Bool-cases (position == add t.base (length t.type_column))) [
  | inl at ↦ elim (Result-cases (intern_type t (event_type e))) [
    | inl ((u, i), found) ↦ absurd (ground (arith, at, found, h))
    | inr (x, full) ↦ intern_type-full t (event_type e) x full
  ]
  | inr off ↦ absurd (ground (arith, off, h))
]

last_known :
    (es : List EventRef) (e : EventRef) → mem (event_type e) (types_of (es ++ e ∷ [])) ≡ true
last_known es e =
    ap (mem (event_type e)) (map-append es (e ∷ [])) ∙ mem-append_last (event_type e) (types_of es)

pub new-Named : (base : Position) → Named (new base) []
unfolding new
new-Named base = record { distinct = tt; known = tt }

pub push-Named :
    (t t' : ActiveTail) (es : List EventRef) (position : Position) (e : EventRef)
    → Named t es
    → push t position e ≡ ok t'
    → Named t' (es ++ e ∷ [])
push-Named t t' es position e v h = elim (push-names t t' position e h) [
  | inl same ↦ record {
    distinct = subst (λ m. NoDup (names_of m)) (sym same) v.distinct;
    known =
        subst (λ m. All (λ n. mem n (types_of (es ++ e ∷ [])) ≡ true) (names_of m)) (sym same)
          (known_more (names_of t.type_ids) es e v.known);
  }
  | inr (absent, more) ↦ record {
    distinct =
        subst (λ m. NoDup (names_of m)) (sym more)
          (lookup-names_of (event_type e) t.type_ids absent, v.distinct);
    known =
        subst (λ m. All (λ n. mem n (types_of (es ++ e ∷ [])) ≡ true) (names_of m)) (sym more)
          (last_known es e, known_more (names_of t.type_ids) es e v.known);
  }
]

-- A push is refused for its type only when the events with this one have too many.
pub push-TooManyTypes :
    (t : ActiveTail) (es : List EventRef) (position : Position) (e : EventRef) (limit : ℕ)
    → Named t es
    → push t position e ≡ err (too_many_types limit)
    → TooManyTypes (es ++ e ∷ [])
push-TooManyTypes t es position e limit v h =
    let (absent, full) = push-full t position e limit h in
    (
      event_type e ∷ names_of t.type_ids,
      (lookup-names_of (event_type e) t.type_ids absent, v.distinct),
      (last_known es e, known_more (names_of t.type_ids) es e v.known),
      omega (arith, full, length-names_of t.type_ids),
    )

pub TooManyTypes-append :
    (es : List EventRef) (e : EventRef) → TooManyTypes es → TooManyTypes (es ++ e ∷ [])
TooManyTypes-append es e (names, distinct, known, many) =
    (names, distinct, known_more names es e known, many)
