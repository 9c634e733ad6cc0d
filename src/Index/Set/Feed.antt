-- ===== src/Index/Set/Feed.antt =====
-- IndexSet::push and seal_active of crates/tephra/src/index/set.rs keep the index over the log.
use tephra.Prelude.{
  ℕ, ◌+◌, ◌⊎◌, ◌<◌, ◌≡◌, refl, sym, ap, ◌∙◌, subst, true, false, List, [], ◌∷◌, ◌++◌, append-nil,
  append_assoc, none, some, if◌then◌else◌, length, length-append, arith, Bool-cases, inl, inr, ◌<◌,
}
use tephra.Prelude.Result.{ok, err, Result-cases}
use tephra.Types.Position.{Position, u64_mod}
use tephra.Types.Tags.{IsAscending}
use tephra.Event.{EventRef, tags}
use tephra.Index.Interface.{SegmentIndex, Indexes}
use tephra.Index.Tail.{ActiveTail, PushError, fed_out_of_order, too_many_types, view_full}
use tephra.Index.Tail as Tail
use tephra.Index.Tail.Feed.{TailOf, push-TailOf, push-base, push-in_order}
use tephra.Index.Tail.View.{view_full-Indexes, view_full-base, new-TailOf, base_new}
use tephra.Index.Set.{SealedIndex, IndexSet, push, seal_active}
use tephra.Index.Set.Held.{SegOf, SealedOf, concat, IndexSetOf}

-- The set has been fed `tail` since its last seal.
pub record IsFed (s : IndexSet) (parts : List (List EventRef)) (tail : List EventRef) : Type 0 where
  pub sealed : SealedOf s.sealed 1 parts
  pub base : s.active_base ≡ 1 + length (concat parts)
  pub span : s.active_span ≡ length tail
  pub active : s.active_unindexable ≡ false → TailOf s.active tail × (s.active.base ≡ s.active_base)

pub IsFed-IndexSetOf :
    (s : IndexSet) (parts : List (List EventRef)) (tail : List EventRef)
    → IsFed s parts tail
    → IndexSetOf s parts tail
IsFed-IndexSetOf s parts tail v = record {
  sealed = v.sealed;
  base = v.base;
  span = v.span;
  active = λ u.
      (view_full-Indexes s.active tail (v.active u).0, view_full-base s.active ∙ (v.active u).1);
}

abbrev counted : IndexSet → IndexSet
counted s = record s { active_span = s.active_span + 1 }

push-latched :
    (s : IndexSet) (position : Position) (e : EventRef)
    → s.active_unindexable ≡ true
    → push s position e ≡ some (counted s)
unfolding push
push-latched s position e u = rw u

push-taken :
    (s : IndexSet) (position : Position) (e : EventRef) (t : ActiveTail)
    → s.active_unindexable ≡ false
    → Tail.push s.active position e ≡ ok t
    → push s position e ≡ some (record (counted s) { active = t; active_unindexable = false })
unfolding push
push-taken s position e t u h =
    rw (u, h) (ap (λ b. some (record (counted s) { active = t; active_unindexable = b })) u)

abbrev latched : IndexSet → IndexSet
latched s = record (counted s) {
  active = Tail.mark_unindexable s.active;
  active_unindexable = true;
}

push-refused :
    (s : IndexSet) (position : Position) (e : EventRef) (limit : ℕ)
    → s.active_unindexable ≡ false
    → Tail.push s.active position e ≡ err (too_many_types limit)
    → push s position e ≡ some (latched s)
unfolding push
push-refused s position e limit u h = rw (u, h)

pub PushError-cases :
    (x : PushError) → (x ≡ fed_out_of_order) ⊎ ((limit : ℕ) × (x ≡ too_many_types limit))
PushError-cases fed_out_of_order = inl refl
PushError-cases (too_many_types limit) = inr (limit, refl)

pub push-IsFed :
    (s : IndexSet) (parts : List (List EventRef)) (tail : List EventRef) (position : Position)
    (e : EventRef)
    → IsFed s parts tail
    → IsAscending (tags e)
    → position ≡ 1 + length (concat parts ++ tail)
    → position < u64_mod
    → (s' : IndexSet) × (push s position e ≡ some s') × IsFed s' parts (tail ++ e ∷ [])
push-IsFed s parts tail position e v asc at small =
    let more : s.active_span + 1 ≡ length (tail ++ e ∷ []) =
      omega (arith, v.span, length-append tail (e ∷ [])) in
    elim (Bool-cases s.active_unindexable) [
      | inl u ↦ (
        counted s,
        push-latched s position e u,
        record { sealed = v.sealed; base = v.base; span = more; active = λ w. absurd (cc (u, w)) },
      )
      | inr u ↦ elim (Result-cases (Tail.push s.active position e)) [
        | inl (t, h) ↦ (
          record (counted s) { active = t; active_unindexable = false },
          push-taken s position e t u h,
          record {
            sealed = v.sealed;
            base = v.base;
            span = more;
            active = λ w. (
              push-TailOf s.active t tail position e (v.active u).0 asc h,
              push-base s.active t tail position e (v.active u).0 h ∙ (v.active u).1,
            );
          },
        )
        | inr (x, h) ↦ elim (PushError-cases x) [
          | inl off ↦ absurd (
              push-in_order s.active position e
                (omega (
                  arith,
                  at,
                  v.base,
                  (v.active u).1,
                  (v.active u).0.column.aligned,
                  length-append (concat parts) tail,
                ))
                small (h ∙ ap (λ y. err y) off))
          | inr (limit, full) ↦ (
            latched s,
            push-refused s position e limit u (h ∙ ap (λ y. err y) full),
            record { sealed = v.sealed; base = v.base; span = more; active = λ w. cc w },
          )
        ]
      ]
    ]

SealedOf-snoc :
    (xs : List SealedIndex) (x : SealedIndex) (at : Position) (parts : List (List EventRef))
    (es : List EventRef)
    → SealedOf xs at parts
    → x.base ≡ at + length (concat parts)
    → x.count ≡ length es
    → SegOf x.seg (at + length (concat parts)) es
    → SealedOf (xs ++ x ∷ []) at (parts ++ es ∷ [])
SealedOf-snoc [] x at [] es h b c k =
    let start : at + 0 ≡ at = omega arith in
    (b ∙ start, c, subst (λ n. SegOf x.seg n es) start k, tt)
SealedOf-snoc [] x at (part ∷ parts) es h b c k = absurd h
SealedOf-snoc (y ∷ xs) x at [] es h b c k = absurd h
SealedOf-snoc (y ∷ xs) x at (part ∷ parts) es h b c k =
    let shift : at + length (part ++ concat parts) ≡ at + length part + length (concat parts) =
      omega (arith, length-append part (concat parts)) in
    (
      h.0,
      h.1,
      h.2,
      SealedOf-snoc xs x (at + length part) parts es h.3 (b ∙ shift) c
          (subst (λ n. SegOf x.seg n es) shift k),
    )

pub concat-snoc :
    (parts : List (List EventRef)) (es : List EventRef)
    → concat (parts ++ es ∷ []) ≡ concat parts ++ es
concat-snoc [] es = append-nil es
concat-snoc (part ∷ parts) es =
    ap (λ l. part ++ l) (concat-snoc parts es) ∙ sym (append_assoc part (concat parts) es)

-- What sealing relies on: the encoded segment answers as the tail did.
abbrev pub Faithful : (ActiveTail → SegmentIndex) → Type 0
Faithful sealed_form =
    (t : ActiveTail) (es : List EventRef)
    → Indexes (view_full t) es
    → Indexes (sealed_form t) es × ((sealed_form t).base ≡ t.base)

-- The last sealed segment is published with an index of `tail`, unless the set had latched it.
abbrev pub Published : IndexSet → IndexSet → List EventRef → Type 0
Published s s' tail =
    (s.active_unindexable ≡ true)
    ⊎ ((idx : SegmentIndex) × (s'.sealed
          ≡ s.sealed ++ record { base = s.active_base; count = length tail; seg = some idx } ∷ [])
        × Indexes idx tail
        × (idx.base ≡ s.active_base))

sealing-IsFed :
    (sealed_form : ActiveTail → SegmentIndex) (s : IndexSet) (parts : List (List EventRef))
    (tail : List EventRef) (new_base : Position)
    → Faithful sealed_form
    → IsFed s parts tail
    → new_base ≡ s.active_base + length tail
    → IsFed (seal_active sealed_form s new_base) (parts ++ tail ∷ []) []
unfolding seal_active
sealing-IsFed sealed_form s parts tail new_base f v h =
    let seg : SegOf (if s.active_unindexable then none else some (sealed_form s.active))
        (1 + length (concat parts)) tail =
      elim (Bool-cases s.active_unindexable) [
        | inl u ↦ rw u tt
        | inr u ↦
            let k = f s.active tail (view_full-Indexes s.active tail (v.active u).0) in
            rw u (k.0, k.1 ∙ (v.active u).1 ∙ v.base)
      ] in
    record {
      sealed =
          SealedOf-snoc s.sealed
            (record {
              base = s.active_base;
              count = s.active_span;
              seg = if s.active_unindexable then none else some (sealed_form s.active);
            })
            1 parts tail v.sealed v.base v.span seg;
      base =
          omega (
            arith,
            h,
            v.base,
            ap length (concat-snoc parts tail),
            length-append (concat parts) tail,
          );
      span = refl;
      active = λ u. (new-TailOf new_base, base_new new_base);
    }

sealing-Published :
    (sealed_form : ActiveTail → SegmentIndex) (s : IndexSet) (parts : List (List EventRef))
    (tail : List EventRef) (new_base : Position)
    → Faithful sealed_form
    → IsFed s parts tail
    → Published s (seal_active sealed_form s new_base) tail
unfolding seal_active
sealing-Published sealed_form s parts tail new_base f v = elim (Bool-cases s.active_unindexable) [
  | inl u ↦ inl u
  | inr u ↦
      let k = f s.active tail (view_full-Indexes s.active tail (v.active u).0) in
      inr (
        sealed_form s.active,
        rw u (
            ap
              (λ n.
                s.sealed
                ++ record { base = s.active_base; count = n; seg = some (sealed_form s.active) }
                  ∷ [])
              v.span),
        k.0,
        k.1 ∙ (v.active u).1,
      )
]

-- When a sealed segment answers as the tail that it encodes did, sealing at the next position
-- turns the tail into the last part of what the set indexes, and starts behind it an empty one that
-- is indexable, whatever the set had latched. The segment is published with an index of its events
-- at their positions, unless it was latched as unindexable.
pub seal_active-IsFed :
    (sealed_form : ActiveTail → SegmentIndex) (s : IndexSet) (parts : List (List EventRef))
    (tail : List EventRef) (new_base : Position)
    → Faithful sealed_form
    → IsFed s parts tail
    → new_base ≡ s.active_base + length tail
    → IsFed (seal_active sealed_form s new_base) (parts ++ tail ∷ []) []
      × ((seal_active sealed_form s new_base).active_unindexable ≡ false)
      × Published s (seal_active sealed_form s new_base) tail
unfolding seal_active
seal_active-IsFed sealed_form s parts tail new_base f v h = (
  sealing-IsFed sealed_form s parts tail new_base f v h,
  refl,
  sealing-Published sealed_form s parts tail new_base f v,
)
