-- ===== src/Index/Tail/Feed.antt =====
-- ActiveTail::push over the whole event, and the index that a view of the tail is
-- (crates/tephra/src/index/tail.rs).
use tephra.Prelude.{
  ℕ, zero, suc, ◌+◌, ◌<◌, ◌≡◌, ◌≢◌, refl, sym, ap, ◌∙◌, subst, Bool, false, List, [], ◌∷◌, ◌++◌,
  Option, none, some, length, get_or, arith, Bool-cases, Option-cases, inl, inr, ◌==◌,
}
use tephra.Prelude.Str.{Str, mem}
use tephra.Prelude.Result.{ok, err, Result-cases}
use tephra.Types.Position.{Position, add, add-eq, u64_mod}
use tephra.Types.Tags.{IsAscending}
use tephra.Event.{EventRef, event_type, tags}
use tephra.Tips.MaxMap.{lookup}
use tephra.Index.Interface.{tag_at, IsType}
use tephra.Index.Interner.{IsInterner}
use tephra.Index.Tail.{ActiveTail, fed_out_of_order, push, intern_type, intern_tag, index_tags}
use tephra.Index.Tail.Slots.{Partial, Holds, TermOf, TermOf-ext, carries}
use tephra.Index.Tail.Terms.{step_tag, index_tags-Partial}
use tephra.Index.Tail.Types.{Column, type_at, Interned, intern_type-Interned, stored, stored-Column}

-- The tail after the events `es`, in order.
pub record TailOf (t : ActiveTail) (es : List EventRef) : Type 0 where
  pub column : Column t es
  pub terms : Partial t es (length es) (λ s. false)

intern_tag-rest :
    (t : ActiveTail) (tag : Str)
    → ((intern_tag t tag).0.base ≡ t.base)
      × ((intern_tag t tag).0.type_column ≡ t.type_column)
      × ((intern_tag t tag).0.type_ids ≡ t.type_ids)
unfolding intern_tag
intern_tag-rest t tag = elim (Option-cases (lookup tag t.tag_ids)) [
  | inl h ↦ ground (arith, h)
  | inr (id, h) ↦ ground (arith, h)
]

pub index_tags-rest :
    (ts : List Str) (t : ActiveTail) (local : ℕ)
    → ((index_tags t ts local).base ≡ t.base)
      × ((index_tags t ts local).type_column ≡ t.type_column)
      × ((index_tags t ts local).type_ids ≡ t.type_ids)
unfolding index_tags
index_tags-rest [] t local = (refl, refl, refl)
index_tags-rest (tag ∷ ts) t local =
    let rest = index_tags-rest ts (step_tag t tag local) local in
    let first = intern_tag-rest t tag in (rest.0 ∙ first.0, rest.1 ∙ first.1, rest.2 ∙ first.2)

-- The posting side reads only the slots and the term map; the column only the type fields.
TermOf-same :
    (t u : ActiveTail) (o : Option ℕ) (p : ℕ → Bool)
    → u.postings ≡ t.postings
    → TermOf t o p
    → TermOf u o p
TermOf-same t u none p h k = k
TermOf-same t u (some id) p h k = subst (λ ps. Holds (get_or ps id []) p) (sym h) k

Partial-same :
    (t u : ActiveTail) (es : List EventRef) (local : ℕ) (done : Str → Bool)
    → u.postings ≡ t.postings
    → u.tag_ids ≡ t.tag_ids
    → Partial t es local done
    → Partial u es local done
Partial-same t u es local done h k v = record {
  interner =
      subst (λ ids. IsInterner ids (length u.postings)) (sym k)
        (subst (λ ps. IsInterner t.tag_ids (length ps)) (sym h) v.interner);
  terms = λ tag.
      subst (λ ids. TermOf u (lookup tag ids) (carries es local done tag)) (sym k)
        (TermOf-same t u (lookup tag t.tag_ids) (carries es local done tag) h (v.terms tag));
}

Column-same :
    (t u : ActiveTail) (es : List EventRef)
    → u.type_column ≡ t.type_column
    → u.type_ids ≡ t.type_ids
    → Column t es
    → Column u es
Column-same t u es h k v = record {
  interner = subst (λ ids. IsInterner ids (length ids)) (sym k) v.interner;
  aligned = ap length h ∙ v.aligned;
  known = λ n l.
      subst (λ ids. get_or u.type_column n 0 < length ids) (sym k)
        (subst (λ col. get_or col n 0 < length t.type_ids) (sym h) (v.known n l));
  types = λ name.
      subst (λ ids. IsType (type_at u) (lookup name ids) name es) (sym k)
        (subst (λ col. IsType (λ n. get_or col n 0) (lookup name t.type_ids) name es) (sym h)
          (v.types name));
}

tag_at-snoc :
    (tag : Str) (es : List EventRef) (e : EventRef) (n : ℕ)
    → tag_at tag (es ++ e ∷ []) n ≡ carries es (length es) (λ s. mem s (tags e)) tag n
tag_at-snoc tag [] e zero = ground arith
tag_at-snoc tag [] e (suc n) = ground arith
tag_at-snoc tag (x ∷ es) e zero = ground (arith, Bool-cases (mem tag (tags x)))
tag_at-snoc tag (x ∷ es) e (suc n) = ground (arith, tag_at-snoc tag es e n)

-- Between two events nothing is half done.
next_event :
    (t : ActiveTail) (es : List EventRef) (e : EventRef)
    → Partial t es (length es) (λ s. mem s (tags e))
    → Partial t (es ++ e ∷ []) (length (es ++ e ∷ [])) (λ s. false)
next_event t es e v = record {
  interner = v.interner;
  terms = λ tag.
      TermOf-ext t (lookup tag t.tag_ids) (carries es (length es) (λ s. mem s (tags e)) tag)
        (carries (es ++ e ∷ []) (length (es ++ e ∷ [])) (λ s. false) tag)
        (λ n. ground (arith, tag_at-snoc tag es e n, Bool-cases (tag_at tag (es ++ e ∷ []) n)))
        (v.terms tag);
}

-- Once the type is interned, the tags are indexed and the column extended.
filled :
    (t t' : ActiveTail) (es : List EventRef) (e : EventRef) (id local : ℕ)
    → TailOf t es
    → Interned t t' es (event_type e) id
    → IsAscending (tags e)
    → local ≡ length es
    → TailOf (stored (index_tags t' (tags e) local) id) (es ++ e ∷ [])
filled t t' es e id local v i asc at =
    let u = index_tags t' (tags e) local in
    let rest = index_tags-rest (tags e) t' local in
    let kept = i.same_rest in
    let before : Partial t' es local (λ s. false) =
      Partial-same t t' es local (λ s. false) kept.1 kept.2
        (subst (λ n. Partial t es n (λ s. false)) (sym at) v.terms) in
    let indexed : Partial u es local (λ s. mem s (tags e)) =
      index_tags-Partial (tags e) t' es local (λ s. false) before asc (λ s m. refl) at in
    let all : Partial (stored u id) es (length es) (λ s. mem s (tags e)) =
      Partial-same u (stored u id) es (length es) (λ s. mem s (tags e)) refl refl
        (subst (λ n. Partial u es n (λ s. mem s (tags e))) at indexed) in
    record {
      column =
          stored-Column u es e id (Column-same t' u es rest.1 rest.2 i.column)
            (ap (lookup (event_type e)) rest.2 ∙ i.found);
      terms = next_event (stored u id) es e all;
    }

-- What a push that succeeds has done.
record Pushed (t t' : ActiveTail) (es : List EventRef) (e : EventRef) : Type 0 where
  pub typed : ActiveTail
  pub id : ℕ
  pub interned : Interned t typed es (event_type e) id
  pub result : stored (index_tags typed (tags e) (length t.type_column)) id ≡ t'

push-Pushed :
    (t t' : ActiveTail) (es : List EventRef) (position : Position) (e : EventRef)
    → TailOf t es
    → push t position e ≡ ok t'
    → Pushed t t' es e
unfolding push
push-Pushed t t' es position e v h =
    elim (Bool-cases (position == add t.base (length t.type_column))) [
      | inl at ↦ elim (Result-cases (intern_type t (event_type e))) [
        | inl ((t'', i), found) ↦ record {
          typed = t'';
          id = i;
          interned = intern_type-Interned t t'' es (event_type e) i v.column found;
          result = ground (arith, at, found, h);
        }
        | inr (x, refused) ↦ absurd (ground (arith, at, refused, h))
      ]
      | inr off ↦ absurd (ground (arith, off, h))
    ]

pub push-TailOf :
    (t t' : ActiveTail) (es : List EventRef) (position : Position) (e : EventRef)
    → TailOf t es
    → IsAscending (tags e)
    → push t position e ≡ ok t'
    → TailOf t' (es ++ e ∷ [])
push-TailOf t t' es position e v asc h =
    let p = push-Pushed t t' es position e v h in
    subst (λ x. TailOf x (es ++ e ∷ [])) p.result
      (filled t p.typed es e p.id (length t.type_column) v p.interned asc v.column.aligned)

pub push-base :
    (t t' : ActiveTail) (es : List EventRef) (position : Position) (e : EventRef)
    → TailOf t es
    → push t position e ≡ ok t'
    → t'.base ≡ t.base
push-base t t' es position e v h =
    let p = push-Pushed t t' es position e v h in
    let rest = index_tags-rest (tags e) p.typed (length t.type_column) in
    sym (ap (λ (x : ActiveTail). x.base) p.result) ∙ rest.0 ∙ p.interned.same_rest.0

-- An event at the position that is next is never taken for one out of order.
pub push-in_order :
    (t : ActiveTail) (position : Position) (e : EventRef)
    → position ≡ t.base + length t.type_column
    → position < u64_mod
    → push t position e ≢ err fed_out_of_order
unfolding push intern_type
push-in_order t position e at small h =
    let next : add t.base (length t.type_column) ≡ t.base + length t.type_column =
      add-eq t.base (length t.type_column) (omega (arith, at)) in
    elim (Option-cases (lookup (event_type e) t.type_ids)) [
      | inl n ↦ ground (arith, h, next, at, n)
      | inr (id, n) ↦ ground (arith, h, next, at, n)
    ]
