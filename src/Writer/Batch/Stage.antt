-- ===== src/Writer/Batch/Stage.antt =====
-- Batch::stage of crates/tephra/src/writer/batch.rs: the staged records at their positions, and
-- their tags in the staged tips.
use tephra.Prelude.{
  ℕ, suc, ◌+◌, ◌-◌, ◌≤◌, ◌<◌, ◌≡◌, refl, sym, ap, ◌∙◌, subst, true, List, [], ◌∷◌, ◌++◌, append-nil,
  append_assoc, some, length, length-append, All, arith, Bool-cases, inl, inr, max,
}
use tephra.Prelude.Str.{Str, str_eq, str_eq_iff, str_eq_self, mem}
use tephra.Prelude.Result.{ok}
use tephra.Types.Position.{Position, next, next-eq, u64_mod}
use tephra.Event.{Event, EventRef, as_bytes, as_ref, tags}
use tephra.Event.Decode.{from_bytes}
use tephra.Matching.{Placed}
use tephra.Tips.{StagedTips, record_tag}
use tephra.Tips.MaxMap.{lookup, lookup-record_max, record_max-AllFrom, found_or, AllFrom}
use tephra.Tips.Durable.{StagedAt}
use tephra.Writer.Batch.{Batch, new, record_tags, stage_events, stage}
use tephra.Writer.Condition.Exact.{Decoded, Decoded-append, placed_events, placed_events-append}

-- What Event::new guarantees of each event of a request: its bytes decode to it.
abbrev pub AreEvents : List Event → Type 0
AreEvents events = All (λ e. from_bytes (as_bytes e) ≡ ok (as_ref e)) events

abbrev pub refs : List Event → List EventRef
refs [] = []
refs (e ∷ events) = as_ref e ∷ refs events

-- The batch holds the events `es`, up to the position `at`.
pub record Holds (batch : Batch) (es : List EventRef) (at : Position) : Type 0 where
  pub decoded : Decoded batch.records es
  pub known : All (StagedAt batch.tips) (placed_events batch.first es)
  pub from : AllFrom batch.first batch.tips.tag_positions
  pub reached : at ≡ batch.first + length es

pub new-Holds : (at : Position) → Holds (new at) [] at
unfolding new
new-Holds at = record { decoded = tt; known = tt; from = tt; reached = omega arith }

-- The map has `t` at `p` or above.
abbrev KnownAt : StagedTips → Position → Str → Type 0
KnownAt tips p t = (q : Position) × (lookup t tips.tag_positions ≡ some q) × (p ≤ q)

-- Recording a tag loses nothing and lowers nothing.
record_tag-keeps :
    (tips : StagedTips) (k t : Str) (at p : Position)
    → KnownAt tips p t
    → KnownAt (record_tag tips k at) p t
unfolding record_tag
record_tag-keeps tips k t at p (q, h, l) = elim (Bool-cases (str_eq k t)) [
  | inl e ↦
      let same : lookup k tips.tag_positions ≡ some q =
        subst (λ x. lookup x tips.tag_positions ≡ some q) (sym ((str_eq_iff k t).0 e)) h in
      (max at q, ground (arith, lookup-record_max k t at tips.tag_positions, e, same), omega arith)
  | inr e ↦ (q, ground (arith, lookup-record_max k t at tips.tag_positions, e, h), l)
]

record_tag_self : (tips : StagedTips) (k : Str) (p : Position) → KnownAt (record_tag tips k p) p k
unfolding record_tag
record_tag_self tips k p = (
  max p (found_or p (lookup k tips.tag_positions)),
  ground (arith, lookup-record_max k k p tips.tag_positions, str_eq_self k),
  omega arith,
)

record_tags-keeps :
    (ts : List Str) (tips : StagedTips) (t : Str) (at p : Position)
    → KnownAt tips p t
    → KnownAt (record_tags tips ts at) p t
unfolding record_tags
record_tags-keeps [] tips t at p k = k
record_tags-keeps (tag ∷ ts) tips t at p k =
    record_tags-keeps ts (record_tag tips tag at) t at p (record_tag-keeps tips tag t at p k)

record_tags-new :
    (ts : List Str) (tips : StagedTips) (t : Str) (p : Position)
    → mem t ts ≡ true
    → KnownAt (record_tags tips ts p) p t
unfolding record_tags
record_tags-new [] tips t p m = cc
record_tags-new (tag ∷ ts) tips t p m = elim (Bool-cases (str_eq tag t)) [
  | inl e ↦ record_tags-keeps ts (record_tag tips tag p) t p p (
      subst (KnownAt (record_tag tips tag p) p) ((str_eq_iff tag t).0 e)
        (record_tag_self tips tag p))
  | inr e ↦ record_tags-new ts (record_tag tips tag p) t p (ground (arith, e, m))
]

record_tags-AllFrom :
    (ts : List Str) (tips : StagedTips) (floor p : Position)
    → floor ≤ p
    → AllFrom floor tips.tag_positions
    → AllFrom floor (record_tags tips ts p).tag_positions
unfolding record_tags record_tag
record_tags-AllFrom [] tips floor p h a = a
record_tags-AllFrom (tag ∷ ts) tips floor p h a =
    record_tags-AllFrom ts (record_tag tips tag p) floor p h
      (record_max-AllFrom floor tag p tips.tag_positions h a)

-- The batch after one more event.
abbrev added : Batch → Event → Position → Batch
added batch event p = record batch {
  records = batch.records ++ as_bytes event ∷ [];
  tips = record_tags batch.tips (tags (as_ref event)) p;
}

known-keeps :
    (es : List EventRef) (at p : Position) (ts : List Str) (tips : StagedTips)
    → All (StagedAt tips) (placed_events at es)
    → All (StagedAt (record_tags tips ts p)) (placed_events at es)
known-keeps [] at p ts tips k = tt
known-keeps (e ∷ es) at p ts tips k =
    (λ t m. record_tags-keeps ts tips t p at (k.0 t m), known-keeps es (suc at) p ts tips k.1)

known-append :
    (xs ys : List Placed) (tips : StagedTips)
    → All (StagedAt tips) xs
    → All (StagedAt tips) ys
    → All (StagedAt tips) (xs ++ ys)
known-append [] ys tips k l = l
known-append (x ∷ xs) ys tips k l = (k.0, known-append xs ys tips k.1 l)

added-Holds :
    (batch : Batch) (es : List EventRef) (event : Event) (p : Position)
    → Holds batch es p
    → from_bytes (as_bytes event) ≡ ok (as_ref event)
    → Holds (added batch event p) (es ++ as_ref event ∷ []) (suc p)
added-Holds batch es event p v d = record {
  decoded =
      Decoded-append batch.records (as_bytes event ∷ []) es (as_ref event ∷ []) v.decoded (d, tt);
  known =
      subst (λ l. All (StagedAt (record_tags batch.tips (tags (as_ref event)) p)) l)
        (sym (placed_events-append batch.first es (as_ref event ∷ [])))
        (known-append (placed_events batch.first es)
          (placed_events (batch.first + length es) (as_ref event ∷ []))
          (record_tags batch.tips (tags (as_ref event)) p)
          (known-keeps es batch.first p (tags (as_ref event)) batch.tips v.known)
          (
            subst (λ n. StagedAt (record_tags batch.tips (tags (as_ref event)) p) (n, as_ref event))
                v.reached (λ t m. record_tags-new (tags (as_ref event)) batch.tips t p m),
            tt,
          ));
  from =
      record_tags-AllFrom (tags (as_ref event)) batch.tips batch.first p (omega (arith, v.reached))
        v.from;
  reached = omega (arith, v.reached, length-append es (as_ref event ∷ []));
}

stage_events-Holds :
    (events : List Event) (batch : Batch) (es : List EventRef) (p : Position)
    → Holds batch es p
    → AreEvents events
    → p + length events < u64_mod
    → Holds (stage_events batch events p).0 (es ++ refs events) (stage_events batch events p).1
      × ((stage_events batch events p).0.first ≡ batch.first)
      × ((stage_events batch events p).0.staged ≡ batch.staged)
      × ((stage_events batch events p).1 ≡ p + length events)
unfolding stage_events
stage_events-Holds [] batch es p v d h = (
  subst (λ l. Holds batch l p) (sym (append-nil es)) v,
  refl,
  refl,
  let k : p ≡ p + 0 = omega arith in k,
)
stage_events-Holds (event ∷ events) batch es p v d h =
    let step : suc p ≡ next p =
      sym (next-eq p (omega arith) ∙ (let k : p + 1 ≡ suc p = omega arith in k)) in
    let rest =
      stage_events-Holds events (added batch event p) (es ++ as_ref event ∷ []) (next p)
        (subst (Holds (added batch event p) (es ++ as_ref event ∷ [])) step
          (added-Holds batch es event p v d.0))
        d.1 (omega (arith, step)) in
    (
      subst
          (λ l.
            Holds (stage_events (added batch event p) events (next p)).0 l
              (stage_events (added batch event p) events (next p)).1)
          (append_assoc es (as_ref event ∷ []) (refs events)) rest.0,
      rest.1,
      rest.2,
      omega (arith, rest.3, step),
    )

-- Staging a request whose events' bytes decode, with positions left for them, appends its events
-- to the batch, each tag recorded at its event's position or above, and gives the request the
-- range of exactly those positions.
pub stage-Holds :
    (batch : Batch) (es : List EventRef) (events : List Event) (token : ℕ)
    → Holds batch es batch.next
    → AreEvents events
    → batch.next + length events < u64_mod
    → Holds (stage batch events token) (es ++ refs events) (stage batch events token).next
      × ((stage batch events token).first ≡ batch.first)
      × ((stage batch events token).next ≡ batch.next + length events)
      × ((stage batch events token).staged
          ≡ batch.staged
            ++ record {
              token = token;
              range = record { first = batch.next; last = batch.next + length events - 1 };
            }
              ∷ [])
unfolding stage
stage-Holds batch es events token v d h =
    let r = stage_events-Holds events batch es batch.next v d h in
    (
      record { decoded = r.0.decoded; known = r.0.known; from = r.0.from; reached = r.0.reached },
      r.1,
      r.3,
      ap
            (λ l.
              l
              ++ record {
                token = token;
                range = record {
                  first = batch.next;
                  last = (stage_events batch events batch.next).1 - 1;
                };
              }
                ∷ [])
            r.2
          ∙ ap
              (λ n.
                batch.staged
                ++ record { token = token; range = record { first = batch.next; last = n - 1 } }
                  ∷ [])
              r.3,
    )
