-- ===== src/Index/Tail/Types.antt =====
-- The type column that ActiveTail::push keeps (crates/tephra/src/index/tail.rs).
use tephra.Prelude.{
  ℕ, zero, suc, ◌≤◌, ◌<◌, ◌≡◌, refl, sym, ap, ◌∙◌, subst, false, List, [], ◌∷◌, ◌++◌, ◌||◌, ◌&&◌,
  Option, none, some, length, length-append, get_or, arith, Bool-cases, Option-cases, inl, inr,
  ◌==◌, if◌then◌else◌,
}
use tephra.Prelude.Str.{Str, str_eq, str_eq_iff}
use tephra.Prelude.Result.{ok}
use tephra.Types.Position.{u16_max}
use tephra.Event.{EventRef, event_type}
use tephra.Tips.MaxMap.{lookup}
use tephra.Index.Interface.{type_is, IsType}
use tephra.Index.Interner.{IsInterner, lookup-cons_self, lookup-cons_ne, IsInterner-cons}
use tephra.Index.Search.Postings.{event_at_past}
use tephra.Index.Tail.{ActiveTail, intern_type}

abbrev pub type_at : ActiveTail → ℕ → ℕ
type_at t n = get_or t.type_column n 0

-- The type map and the column over the events `es`.
pub record Column (t : ActiveTail) (es : List EventRef) : Type 0 where
  pub interner : IsInterner t.type_ids (length t.type_ids)
  pub aligned : length t.type_column ≡ length es
  pub known : (n : ℕ) → n < length es → type_at t n < length t.type_ids
  pub types : (name : Str) → IsType (type_at t) (lookup name t.type_ids) name es

-- A tail whose type map has grown by a name with the next id.
abbrev with_type : ActiveTail → Str → ActiveTail
with_type t name = record t { type_ids = (name, length t.type_ids) ∷ t.type_ids }

intern_type-some :
    (t : ActiveTail) (name : Str) (id : ℕ)
    → lookup name t.type_ids ≡ some id
    → intern_type t name ≡ ok (t, id)
unfolding intern_type
intern_type-some t name id h = ground (arith, h)

intern_type-none :
    (t : ActiveTail) (name : Str)
    → lookup name t.type_ids ≡ none
    → length t.type_ids ≤ u16_max
    → intern_type t name ≡ ok (with_type t name, length t.type_ids)
unfolding intern_type
intern_type-none t name h k = ground (arith, h)

module _ (t : ActiveTail) (es : List EventRef) (name : Str) (v : Column t es)
    (absent : lookup name t.type_ids ≡ none) where
  with_type-IsType : (s : Str) → IsType (type_at t) (lookup s (with_type t name).type_ids) s es
  with_type-IsType s = elim (Bool-cases (str_eq name s)) [
    | inl e ↦
        let same : name ≡ s = (str_eq_iff name s).0 e in
        let nowhere : (n : ℕ) → type_is s es n ≡ false =
          subst (λ x. (n : ℕ) → type_is x es n ≡ false) same
            (subst (λ o. IsType (type_at t) o name es) absent (v.types name)) in
        subst (λ o. IsType (type_at t) o s es)
          (sym (
            ap (λ x. lookup x (with_type t name).type_ids) (sym same)
            ∙ lookup-cons_self name (length t.type_ids) t.type_ids))
          (λ n h. ground (arith, nowhere n, v.known n h))
    | inr e ↦
        subst (λ o. IsType (type_at t) o s es)
          (sym (lookup-cons_ne name s (length t.type_ids) t.type_ids e)) (v.types s)
  ]

  with_type-Column : Column (with_type t name) es
  with_type-Column = record {
    interner = IsInterner-cons t.type_ids (length t.type_ids) name v.interner;
    aligned = v.aligned;
    known = λ n h. ground (arith, v.known n h);
    types = with_type-IsType;
  }

-- The event's type is interned as `id`.
pub record Interned (t t' : ActiveTail) (es : List EventRef) (name : Str) (id : ℕ) : Type 0 where
  pub column : Column t' es
  pub found : lookup name t'.type_ids ≡ some id
  pub same_rest :
      (t'.base ≡ t.base)
      × (t'.postings ≡ t.postings)
      × (t'.tag_ids ≡ t.tag_ids)
      × (t'.type_column ≡ t.type_column)

pub intern_type-Interned :
    (t t' : ActiveTail) (es : List EventRef) (name : Str) (id : ℕ)
    → Column t es
    → intern_type t name ≡ ok (t', id)
    → Interned t t' es name id
unfolding intern_type
intern_type-Interned t t' es name id v h = elim (Option-cases (lookup name t.type_ids)) [
  | inl absent ↦
      let made : ◌≡◌ {A = ActiveTail × ℕ} (with_type t name, length t.type_ids) (t', id) =
        ground (arith, h, absent) in
      subst (λ (r : ActiveTail × ℕ). Interned t r.0 es name r.1) made
        (record {
          column = with_type-Column t es name v absent;
          found = lookup-cons_self name (length t.type_ids) t.type_ids;
          same_rest = (refl, refl, refl, refl);
        })
  | inr (i, found) ↦
      let made : ◌≡◌ {A = ActiveTail × ℕ} (t, i) (t', id) = ground (arith, h, found) in
      subst (λ (r : ActiveTail × ℕ). Interned t r.0 es name r.1) made
        (record { column = v; found = found; same_rest = (refl, refl, refl, refl) })
]

get_or-snoc :
    (xs : List ℕ) (x n : ℕ)
    → get_or (xs ++ x ∷ []) n 0 ≡ (if n == length xs then x else get_or xs n 0)
get_or-snoc [] x zero = refl
get_or-snoc [] x (suc n) = ground arith
get_or-snoc (y ∷ xs) x zero = ground arith
get_or-snoc (y ∷ xs) x (suc n) = ground (arith, get_or-snoc xs x n)

-- A test at a local position, after one more event.
pub type_is-snoc :
    (name : Str) (es : List EventRef) (e : EventRef) (n : ℕ)
    → type_is name (es ++ e ∷ []) n
      ≡ (type_is name es n || (n == length es && str_eq name (event_type e)))
type_is-snoc name [] e zero = refl
type_is-snoc name [] e (suc n) = ground arith
type_is-snoc name (x ∷ es) e zero = ground (arith, Bool-cases (str_eq name (event_type x)))
type_is-snoc name (x ∷ es) e (suc n) = ground (arith, type_is-snoc name es e n)

abbrev pub stored : ActiveTail → ℕ → ActiveTail
stored t id = record t { type_column = t.type_column ++ id ∷ [] }

module _ (t : ActiveTail) (es : List EventRef) (e : EventRef) (id : ℕ) (v : Column t es)
    (found : lookup (event_type e) t.type_ids ≡ some id) where
  -- Another name has another id.
  id-name : (s : Str) (i : ℕ) → lookup s t.type_ids ≡ some i → (i == id) ≡ str_eq s (event_type e)
  id-name s i h = elim (Bool-cases (str_eq s (event_type e))) [
    | inl q ↦
        let same : lookup s t.type_ids ≡ some id =
          subst (λ x. lookup x t.type_ids ≡ some id) (sym ((str_eq_iff s (event_type e)).0 q))
            found in
        ground (arith, q, h, same)
    | inr q ↦ elim (Bool-cases (i == id)) [
      | inl r ↦
          let j : i ≡ id = ground arith in
          let same = v.interner.injective s (event_type e) i h (found ∙ ap some (sym j)) in
          cc ((str_eq_iff s (event_type e)).1 same)
      | inr r ↦ rw (r, q)
    ]
  ]

  not_found : (s : Str) → lookup s t.type_ids ≡ none → str_eq s (event_type e) ≡ false
  not_found s h = elim (Bool-cases (str_eq s (event_type e))) [
    | inl q ↦
        let there : lookup s t.type_ids ≡ some id =
          subst (λ x. lookup x t.type_ids ≡ some id) (sym ((str_eq_iff s (event_type e)).0 q))
            found in
        cc (h, there)
    | inr q ↦ q
  ]

  stored-IsType :
      (s : Str) (o : Option ℕ)
      → lookup s t.type_ids ≡ o
      → IsType (type_at t) o s es
      → IsType (type_at (stored t id)) o s (es ++ e ∷ [])
  stored-IsType s none h k = λ n. ground (arith, type_is-snoc s es e n, k n, not_found s h)
  stored-IsType s (some i) h k = λ n l. ground (
    arith,
    get_or-snoc t.type_column id n,
    type_is-snoc s es e n,
    v.aligned,
    id-name s i h,
    k n,
    event_at_past (λ x. str_eq s (event_type x)) es n,
    length-append es (e ∷ []),
  )

  pub stored-Column : Column (stored t id) (es ++ e ∷ [])
  stored-Column = record {
    interner = v.interner;
    aligned =
        omega (arith, v.aligned, length-append es (e ∷ []), length-append t.type_column (id ∷ []));
    known = λ n l. ground (
      arith,
      get_or-snoc t.type_column id n,
      v.aligned,
      v.known n,
      v.interner.dense (event_type e) id found,
      length-append es (e ∷ []),
    );
    types = λ s. stored-IsType s (lookup s t.type_ids) refl (v.types s);
  }
