-- ===== src/Index/Recovery/Rebuild.antt =====
-- The rebuilt index of crates/tephra/src/index/recovery.rs answers for the events of its segment.
use tephra.Prelude.{
  ◌+◌, ◌⊎◌, ◌<◌, ◌≤◌, ◌≡◌, refl, sym, ap, ◌∙◌, subst, true, false, List, [], ◌∷◌, ◌++◌,
  append_assoc, append-nil, ℕ, some, length, length-append, arith, Bool-cases, inl, inr, suc,
}
use tephra.Prelude.Result.{ok, err, Result-cases}
use tephra.Types.Position.{Position, u64_mod}
use tephra.Types.Tags.{IsAscending}
use tephra.Event.{EventRef, tags}
use tephra.Index.Interface.{Indexes}
use tephra.Index.Search.Locals.{AscendingEvents}
use tephra.Index.Tail.{ActiveTail, PushError, fed_out_of_order, too_many_types, view_full}
use tephra.Index.Tail as Tail
use tephra.Index.Tail.Feed.{TailOf, push-TailOf, push-base, push-in_order}
use tephra.Index.Tail.View.{view_full-Indexes, view_full-base, new-TailOf, base_new}
use tephra.Index.Set.Feed.{PushError-cases}
use tephra.Index.Tail.Names.{
  TooManyTypes, Named, new-Named, push-Named, push-TooManyTypes, TooManyTypes-append,
}
use tephra.Index.Recovery.{Rebuilder, Rebuilt, new, feed, feed_all, rebuild, finish}
use tephra.Writer.Condition.Exact.{placed_events}

-- The rebuilder has been fed `es`, from `base` on.
record Fed (b : Rebuilder) (base : Position) (es : List EventRef) : Type 0 where
  count : b.count ≡ length es
  index : b.unindexable ≡ false → TailOf b.index es × (b.index.base ≡ base) × Named b.index es
  latched : (b.unindexable ≡ false) ⊎ TooManyTypes es

feed-latched :
    (b : Rebuilder) (position : Position) (e : EventRef)
    → b.unindexable ≡ true
    → feed b position e ≡ some (record b { count = b.count + 1 })
unfolding feed
feed-latched b position e u = rw u

feed-taken :
    (b : Rebuilder) (position : Position) (e : EventRef) (t : ActiveTail)
    → b.unindexable ≡ false
    → Tail.push b.index position e ≡ ok t
    → feed b position e ≡ some (record { index = t; count = b.count + 1; unindexable = false })
unfolding feed
feed-taken b position e t u h =
    rw (u, h) (ap (λ l. some (record { index = t; count = b.count + 1; unindexable = l })) u)

feed-refused :
    (b : Rebuilder) (position : Position) (e : EventRef) (limit : ℕ)
    → b.unindexable ≡ false
    → Tail.push b.index position e ≡ err (too_many_types limit)
    → feed b position e ≡ some (record b { count = b.count + 1; unindexable = true })
unfolding feed
feed-refused b position e limit u h = rw (u, h) refl

feed-Fed :
    (b : Rebuilder) (base position : Position) (es : List EventRef) (e : EventRef)
    → Fed b base es
    → IsAscending (tags e)
    → position ≡ base + length es
    → position < u64_mod
    → (b' : Rebuilder) × (feed b position e ≡ some b') × Fed b' base (es ++ e ∷ [])
feed-Fed b base position es e v asc at small =
    let more : b.count + 1 ≡ length (es ++ e ∷ []) =
      omega (arith, v.count, length-append es (e ∷ [])) in
    elim (Bool-cases b.unindexable) [
      | inl u ↦ (
        record b { count = b.count + 1 },
        feed-latched b position e u,
        record {
          count = more;
          index = λ w. absurd (cc (u, w));
          latched = elim v.latched [
            | inl w ↦ absurd (cc (u, w))
            | inr many ↦ inr (TooManyTypes-append es e many)
          ];
        },
      )
      | inr u ↦ elim (Result-cases (Tail.push b.index position e)) [
        | inl (t, h) ↦ (
          record { index = t; count = b.count + 1; unindexable = false },
          feed-taken b position e t u h,
          record {
            count = more;
            index = λ w. (
              push-TailOf b.index t es position e (v.index u).0 asc h,
              push-base b.index t es position e (v.index u).0 h ∙ (v.index u).1,
              push-Named b.index t es position e (v.index u).2 h,
            );
            latched = inl refl;
          },
        )
        | inr (x, h) ↦ elim (PushError-cases x) [
          | inl off ↦ absurd (
              push-in_order b.index position e
                (omega (arith, at, (v.index u).1, (v.index u).0.column.aligned)) small
                (h ∙ ap (λ y. err y) off))
          | inr (limit, full) ↦ (
            record b { count = b.count + 1; unindexable = true },
            feed-refused b position e limit u (h ∙ ap (λ y. err y) full),
            record {
              count = more;
              index = λ w. cc w;
              latched = inr (
                  push-TooManyTypes b.index es position e limit (v.index u).2
                    (h ∙ ap (λ y. err y) full));
            },
          )
        ]
      ]
    ]

feed_all-Fed :
    (more es : List EventRef) (b : Rebuilder) (base at : Position)
    → Fed b base es
    → AscendingEvents more
    → at ≡ base + length es
    → at + length more ≤ u64_mod
    → (b' : Rebuilder) × (feed_all b (placed_events at more) ≡ some b') × Fed b' base (es ++ more)
unfolding feed_all
feed_all-Fed [] es b base at v asc h k = (b, refl, subst (Fed b base) (sym (append-nil es)) v)
feed_all-Fed (e ∷ more) es b base at v asc h k =
    let (b', fed, v') = feed-Fed b base at es e v asc.0 h (omega arith) in
    let (last, rest, w) =
      feed_all-Fed more (es ++ e ∷ []) b' base (suc at) v' asc.1
        (omega (arith, h, length-append es (e ∷ []))) (omega arith) in
    (last, rw (feed_all, fed) rest, subst (Fed last base) (append_assoc es (e ∷ []) more) w)

-- Rebuilding from the events of a segment, with ascending tags and at positions within a u64, never
-- stops and counts the events. The index it gives is one of these events at their positions; only when
-- they have more than 65536 distinct types may it be marked as unindexable instead.
pub rebuild-Indexes :
    (base : Position) (es : List EventRef)
    → AscendingEvents es
    → base + length es ≤ u64_mod
    → (r : Rebuilt) × (rebuild base (placed_events base es) ≡ some r)
      × (r.count ≡ length es)
      × (((r.unindexable ≡ true) × TooManyTypes es)
          ⊎ ((r.unindexable ≡ false)
              × Indexes (view_full r.index) es
              × ((view_full r.index).base ≡ base)))
unfolding rebuild new
rebuild-Indexes base es asc h =
    let start : Fed (new base) base [] = record {
      count = refl;
      index = λ u. (new-TailOf base, base_new base, new-Named base);
      latched = inl refl;
    } in
    let (b, fed, v) = feed_all-Fed es [] (new base) base base start asc (omega arith) h in
    (
      finish b,
      rw (rebuild, fed) refl,
      v.count,
      elim (Bool-cases b.unindexable) [
        | inl u ↦ inl (u, elim v.latched [ inl w ↦ absurd (cc (u, w)) | inr many ↦ many ])
        | inr u ↦
            inr (
              u,
              view_full-Indexes b.index es (v.index u).0,
              view_full-base b.index ∙ (v.index u).1,
            )
      ],
    )
