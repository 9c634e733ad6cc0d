-- ===== src/Index/Set/Held.antt =====
-- What an IndexSet (crates/tephra/src/index/set.rs) holds of the log, and the plan of a query over it.
use tephra.Prelude.{
  suc, ◌⊎◌, ◌+◌, ◌-◌, ◌≤◌, ◌≡◌, refl, sym, ap, ◌∙◌, false, List, [], ◌∷◌, ◌++◌, append_assoc,
  Option, none, some, ltb, leb, ◌==◌, length, keep, arith, Bool-cases, Option-cases, inl, inr,
}
use tephra.Prelude.Result.{ok, Result-cases}
use tephra.Types.Position.{Position}
use tephra.Types.Query.{Query}
use tephra.Event.{EventRef}
use tephra.Matching.{matches}
use tephra.Index.Interface.{SegmentIndex, Indexes}
use tephra.Index.Search.{search_after}
use tephra.Index.Search.Locals.{AscendingEvents}
use tephra.Index.Search.Oracle.{scan_from}
use tephra.Index.Tail.{view_full}
use tephra.Index.Set.{SealedIndex, IndexSet, plan_sealed, search_plan, first, find_in_plan}

-- The matching positions after `after`, of events that stand at `at` and on.
abbrev pub found_after : Query → Position → Position → List EventRef → List Position
found_after q after at es = keep (λ p. ltb after p) (scan_from q at es)

-- A segment's index, when it has one, answers for its events.
abbrev pub SegOf : Option SegmentIndex → Position → List EventRef → Type 0
SegOf none at es = Unit
SegOf (some idx) at es = Indexes idx es × (idx.base ≡ at)

-- The sealed segments hold the parts of the log from `at` on, in order.
abbrev pub SealedOf : List SealedIndex → Position → List (List EventRef) → Type 0
SealedOf [] at [] = Unit
SealedOf [] at (es ∷ parts) = ⊥
SealedOf (x ∷ xs) at [] = ⊥
SealedOf (x ∷ xs) at (es ∷ parts) =
    (x.base ≡ at) × (x.count ≡ length es) × SegOf x.seg at es × SealedOf xs (at + length es) parts

abbrev pub concat : List (List EventRef) → List EventRef
concat [] = []
concat (es ∷ parts) = es ++ concat parts

-- The set holds the log `concat parts ++ tail`, from the first position.
pub record IndexSetOf (s : IndexSet) (parts : List (List EventRef)) (tail : List EventRef)
    : Type 0 where
  pub sealed : SealedOf s.sealed 1 parts
  pub base : s.active_base ≡ 1 + length (concat parts)
  pub span : s.active_span ≡ length tail
  pub active :
      s.active_unindexable ≡ false
      → Indexes (view_full s.active) tail × ((view_full s.active).base ≡ s.active_base)

pub found_after-append :
    (q : Query) (after at : Position) (xs ys : List EventRef)
    → found_after q after at (xs ++ ys)
      ≡ found_after q after at xs ++ found_after q after (at + length xs) ys
unfolding scan_from
found_after-append q after at [] ys =
    ap (λ n. found_after q after n ys) (let h : at ≡ at + 0 = omega arith in h)
found_after-append q after at (x ∷ xs) ys =
    let shift : suc at + length xs ≡ at + suc (length xs) = omega arith in
    let rest =
      found_after-append q after (suc at) xs ys
      ∙ ap (λ n. found_after q after (suc at) xs ++ found_after q after n ys) shift in
    elim (Bool-cases (matches q x)) [
      | inl m ↦ rw m (elim (Bool-cases (ltb after at)) [
        | inl l ↦ rw l (ap (λ r. at ∷ r) rest)
        | inr l ↦ rw l rest
      ])
      | inr m ↦ rw m rest
    ]

-- Nothing at or below `after` is found.
pub found_after-none :
    (q : Query) (after at : Position) (es : List EventRef)
    → at + length es ≤ after + 1
    → found_after q after at es ≡ []
unfolding scan_from
found_after-none q after at [] h = refl
found_after-none q after at (e ∷ es) h =
    let rest = found_after-none q after (suc at) es (omega arith) in ground (arith, rest)

pub no_events :
    (q : Query) (after at : Position) (es : List EventRef)
    → length es ≡ 0
    → found_after q after at es ≡ []
unfolding scan_from
no_events q after at [] h = refl
no_events q after at (e ∷ es) h = absurd (omega arith)

first-append :
    (xs ys : List Position)
    → first (xs ++ ys) ≡ elim (first xs) [ some p ↦ some p | none ↦ first ys ]
first-append [] ys = refl
first-append (x ∷ xs) ys = refl

pub find_in_plan-eq-search_plan :
    (plan : List SegmentIndex) (q : Query) (after : Position)
    → find_in_plan plan q after ≡ first (search_plan plan q after)
unfolding find_in_plan search_plan
find_in_plan-eq-search_plan [] q after = refl
find_in_plan-eq-search_plan (seg ∷ plan) q after = ground (
  arith,
  first-append (search_after seg q after) (search_plan plan q after),
  find_in_plan-eq-search_plan plan q after,
)

pub search_plan-append :
    (xs ys : List SegmentIndex) (q : Query) (after : Position)
    → search_plan (xs ++ ys) q after ≡ search_plan xs q after ++ search_plan ys q after
unfolding search_plan
search_plan-append [] ys q after = refl
search_plan-append (x ∷ xs) ys q after =
    ap (λ r. search_after x q after ++ r) (search_plan-append xs ys q after)
    ∙ sym (append_assoc (search_after x q after) (search_plan xs q after) (search_plan ys q after))

pub AscendingEvents-append_left :
    (xs ys : List EventRef) → AscendingEvents (xs ++ ys) → AscendingEvents xs
AscendingEvents-append_left [] ys h = tt
AscendingEvents-append_left (x ∷ xs) ys h = (h.0, AscendingEvents-append_left xs ys h.1)

pub AscendingEvents-append_right :
    (xs ys : List EventRef) → AscendingEvents (xs ++ ys) → AscendingEvents ys
AscendingEvents-append_right [] ys h = h
AscendingEvents-append_right (x ∷ xs) ys h = AscendingEvents-append_right xs ys h.1

-- What a plan over the sealed segments does at the first of them.
pub plan_sealed-cons :
    (x : SealedIndex) (xs : List SealedIndex) (after : Position) (plan : List SegmentIndex)
    → plan_sealed (x ∷ xs) after ≡ ok plan
    → (((x.count ≡ 0) ⊎ (x.base + x.count ≤ after + 1)) × (plan_sealed xs after ≡ ok plan))
      ⊎ ((seg : SegmentIndex) × (rest : List SegmentIndex) × (x.seg ≡ some seg)
          × (plan_sealed xs after ≡ ok rest)
          × (plan ≡ seg ∷ rest))
unfolding plan_sealed
plan_sealed-cons x xs after plan h = elim (Bool-cases (x.count == 0)) [
  | inl z ↦ inl (inl (ground (arith, z)), ground (arith, h, z))
  | inr z ↦ elim (Bool-cases (leb (x.base + x.count - 1) after)) [
    | inl l ↦ inl (inr (ground (arith, l)), ground (arith, h, z, l))
    | inr l ↦ elim (Option-cases x.seg) [
      | inl n ↦ absurd (ground (arith, h, z, l, n))
      | inr (seg, n) ↦ elim (Result-cases (plan_sealed xs after)) [
        | inl (rest, r) ↦ inr (seg, rest, n, r, ground (arith, h, z, l, n, r))
        | inr (x', r) ↦ absurd (ground (arith, h, z, l, n, r))
      ]
    ]
  ]
]

pub nothing_in :
    (q : Query) (after at : Position) (es : List EventRef) (x : SealedIndex)
    → x.base ≡ at
    → x.count ≡ length es
    → (x.count ≡ 0) ⊎ (x.base + x.count ≤ after + 1)
    → found_after q after at es ≡ []
unfolding scan_from
nothing_in q after at [] x b c h = refl
nothing_in q after at (e ∷ es) x b c (inl z) = absurd (omega arith)
nothing_in q after at (e ∷ es) x b c (inr l) = found_after-none q after at (e ∷ es) (omega arith)
