-- ===== src/Tips/Durable.antt =====
-- TagTips of crates/tephra/src/writer/tips.rs never rules out a query that an event answers.
use native.Mathlib.Nat.{le_trans}
use tephra.Prelude.{
  ℕ, ◌<◌, ◌≤◌, ◌≡◌, refl, true, false, List, [], ◌∷◌, ◌++◌, some, all, any, ltb, leb, All, arith,
  Bool-cases, inl, inr, max, length,
}
use tephra.Prelude.Str.{Str, mem}
use tephra.Types.Position.{Position, saturating_sub}
use tephra.Types.Tags.{Tags, IsAscending}
use tephra.Types.Query.{QueryItem, Query}
use tephra.Event.{EventRef, tags}
use tephra.Matching.{Placed, item_matches, matches}
use tephra.Matching.Merge.{all_in, IsWellFormed, item_matches-eq-item_holds}
use tephra.Tips.{
  TagTips, StagedTips, definitely_no_match, new, max_for, item_unknown, items_verdict, may_match,
  evict_if_needed, absorb,
}
use tephra.Tips.MaxMap.{
  lookup, merge_max, found_or, AllFrom, AllFrom-weaken, merge_max-le, merge_max-new,
  retain_above-le,
}

-- `p` is not above what the tips say of any tag of `ts`.
abbrev pub Bounds : TagTips → Position → List Str → Type 0
Bounds tips p ts = (t : Str) → mem t ts ≡ true → p ≤ max_for tips t

-- The invariant of the durable tips over the log: they bound every event's tags, and the floor is
-- not above the next position.
pub record IsTips (tips : TagTips) (next : Position) (log : List Placed) : Type 0 where
  pub bounds : All (λ (r : Placed). Bounds tips r.0 (tags r.1)) log
  pub floor : tips.window_floor ≤ next

-- A tag list with a tag that the tips rule out is not contained in an event after `after`.
ruled_out :
    (tips : TagTips) (required : Tags) (after p : Position) (ts : List Str)
    → all (λ t. ltb after (max_for tips t)) required ≡ false
    → Bounds tips p ts
    → after < p
    → all_in required ts ≡ false
ruled_out tips [] after p ts h b k = cc
ruled_out tips (r ∷ required) after p ts h b k = elim (Bool-cases (mem r ts)) [
  | inl e ↦ ground (arith, h, b r e, ruled_out tips required after p ts, e)
  | inr e ↦ rw e
]

item_unknown_sound :
    (tips : TagTips) (item : QueryItem) (after p : Position) (e : EventRef)
    → item_unknown tips item after ≡ false
    → IsAscending item.tags
    → IsAscending (tags e)
    → Bounds tips p (tags e)
    → after < p
    → item_matches item e ≡ false
unfolding item_unknown
item_unknown_sound tips item after p e h wf asc b k =
    rw (item_matches-eq-item_holds item e wf asc)
      (ground (arith, h, ruled_out tips item.tags after p (tags e)))

items_verdict_sound :
    (tips : TagTips) (items : List QueryItem) (after p : Position) (e : EventRef)
    → items_verdict tips items after ≡ definitely_no_match
    → All (λ (item : QueryItem). IsAscending item.tags) items
    → IsAscending (tags e)
    → Bounds tips p (tags e)
    → after < p
    → any (λ item. item_matches item e) items ≡ false
unfolding items_verdict
items_verdict_sound tips [] after p e h wf asc b k = refl
items_verdict_sound tips (item ∷ items) after p e h wf asc b k =
    elim (Bool-cases (item_unknown tips item after)) [
      | inl u ↦ absurd (ground (arith, h, u))
      | inr u ↦
          rw (item_unknown_sound tips item after p e u wf.0 asc b k)
            (items_verdict_sound tips items after p e (ground (arith, h, u)) wf.1 asc b k)
    ]

may_match-one :
    (tips : TagTips) (q : Query) (after p : Position) (e : EventRef)
    → may_match tips q after ≡ definitely_no_match
    → IsWellFormed q
    → IsAscending (tags e)
    → Bounds tips p (tags e)
    → after < p
    → matches q e ≡ false
unfolding may_match matches
may_match-one tips Query.all after p e h wf asc b k = cc
may_match-one tips (Query.items items) after p e h wf asc b k =
    items_verdict_sound tips items after p e h wf asc b k

-- No event of the log after `after` answers the query.
abbrev pub NoMatch : Query → Position → List Placed → Type 0
NoMatch q after log = All (λ (r : Placed). after < r.0 → matches q r.1 ≡ false) log

abbrev pub AscendingTags : List Placed → Type 0
AscendingTags log = All (λ (r : Placed). IsAscending (tags r.1)) log

-- The fast reject has no false negative: on tips that bound a log with ascending tags, when they
-- rule a well-formed query out, no event of the log after `after` matches it.
pub may_match_sound :
    (tips : TagTips) (q : Query) (after next : Position) (log : List Placed)
    → IsTips tips next log
    → IsWellFormed q
    → AscendingTags log
    → may_match tips q after ≡ definitely_no_match
    → NoMatch q after log
may_match_sound tips q after next [] inv wf asc h = tt
may_match_sound tips q after next ((p, e) ∷ log) inv wf asc h = (
  λ k. may_match-one tips q after p e h wf asc.0 inv.bounds.0 k,
  may_match_sound tips q after next log (record { bounds = inv.bounds.1; floor = inv.floor }) wf
      asc.1 h,
)

max_for-fresh : (next : Position) (window : ℕ) (t : Str) → max_for (new next window) t ≡ next
unfolding max_for new
max_for-fresh next window t = refl

-- A fresh map, whose floor is the next position, bounds every log below it.
pub new-IsTips :
    (next : Position) (window : ℕ) (log : List Placed)
    → All (λ (r : Placed). r.0 < next) log
    → IsTips (new next window) next log
unfolding new
new-IsTips next window log h = record { bounds = below log h; floor = omega arith }
  where
    below :
        (log : List Placed)
        → All (λ (r : Placed). r.0 < next) log
        → All (λ (r : Placed). Bounds (new next window) r.0 (tags r.1)) log
    below [] h = tt
    below (r ∷ log) h = (λ t m. ground (arith, max_for-fresh next window t, h.0), below log h.1)

max_for-eq-found_or :
    (tips : TagTips) (t : Str) → max_for tips t ≡ found_or tips.window_floor (lookup t tips.max_pos)
unfolding max_for
max_for-eq-found_or tips t = ground arith

-- Eviction lowers no bound, and keeps the floor at or below the next position.
pub evict_if_needed-le :
    (tips : TagTips) (next : Position) (t : Str)
    → tips.window_floor ≤ next
    → (max_for tips t ≤ max_for (evict_if_needed tips next) t)
      × ((evict_if_needed tips next).window_floor ≤ next)
unfolding evict_if_needed max_for lookup
evict_if_needed-le tips next t h = elim (Bool-cases (leb (length tips.max_pos) tips.max_entries)) [
  | inl small ↦ rw small (omega arith, h)
  | inr big ↦
      let floor = max tips.window_floor (saturating_sub next tips.window) in
      rw (big, max_for-eq-found_or)
        (retain_above-le tips.window_floor floor tips.max_pos t (omega arith), omega arith)
]

-- The staged map knows every tag of these events, at their position or above.
abbrev pub StagedAt : StagedTips → Placed → Type 0
StagedAt staged r =
    (t : Str)
    → mem t (tags r.1) ≡ true
    → (q : Position) × (lookup t staged.tag_positions ≡ some q) × (r.0 ≤ q)

module _ (tips : TagTips) (staged : StagedTips) (next next' : Position)
    (floor : tips.window_floor ≤ next) (later : next ≤ next')
    (from : AllFrom tips.window_floor staged.tag_positions) where
  abbrev merged : TagTips
  merged = record tips { max_pos = merge_max staged.tag_positions tips.max_pos }

  absorb-old : (t : Str) → max_for tips t ≤ max_for (absorb tips staged next') t
  unfolding absorb
  absorb-old t = omega (
    arith,
    (evict_if_needed-le merged next' t (omega arith)).0,
    max_for-eq-found_or tips t,
    max_for-eq-found_or merged t,
    merge_max-le tips.window_floor staged.tag_positions tips.max_pos t from,
  )

  absorb-new :
      (t : Str) (q : Position)
      → lookup t staged.tag_positions ≡ some q
      → q ≤ max_for (absorb tips staged next') t
  unfolding absorb
  absorb-new t q h = omega (
    arith,
    (evict_if_needed-le merged next' t (omega arith)).0,
    max_for-eq-found_or merged t,
    merge_max-new tips.window_floor staged.tag_positions tips.max_pos t q from h,
  )

  absorb-floor : (absorb tips staged next').window_floor ≤ next'
  unfolding absorb
  absorb-floor = (evict_if_needed-le merged next' [] (omega arith)).1

  absorb-Bounds :
      (log new : List Placed)
      → All (λ (r : Placed). Bounds tips r.0 (tags r.1)) log
      → All (StagedAt staged) new
      → All (λ (r : Placed). Bounds (absorb tips staged next') r.0 (tags r.1)) (log ++ new)
  absorb-Bounds [] [] b s = tt
  absorb-Bounds [] (r ∷ new) b s = (
    λ t m. let (q, found, above) = s.0 t m in le_trans above (absorb-new t q found),
    absorb-Bounds [] new b s.1,
  )
  absorb-Bounds (r ∷ log) new b s =
      (λ t m. le_trans (b.0 t m) (absorb-old t), absorb-Bounds log new b.1 s)

-- Absorbing the tips of a batch that starts at the next position and knows its events' tags,
-- eviction included, keeps the tips' invariant over the log with the batch behind it.
pub absorb-IsTips :
    (tips : TagTips) (staged : StagedTips) (next next' : Position) (log new : List Placed)
    → IsTips tips next log
    → next ≤ next'
    → AllFrom next staged.tag_positions
    → All (StagedAt staged) new
    → IsTips (absorb tips staged next') next' (log ++ new)
absorb-IsTips tips staged next next' log new inv later from known =
    let from' = AllFrom-weaken tips.window_floor next staged.tag_positions inv.floor from in
    record {
      bounds = absorb-Bounds tips staged next next' inv.floor later from' log new inv.bounds known;
      floor = absorb-floor tips staged next next' inv.floor later from';
    }
