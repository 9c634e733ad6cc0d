-- ===== src/Index/Search/Oracle.antt =====
-- The index-driven evaluator of crates/tephra/src/index/search.rs against the scan.
use mathlib.Core.List.{reverse, reverse_aux}
use tephra.Prelude.{
  ℕ, zero, suc, ◌+◌, ◌≤◌, ◌≡◌, refl, sym, ap, ◌∙◌, List, [], ◌∷◌, keep, ltb, length, arith,
  Bool-cases, inl, inr, map, if◌then◌else◌,
}
use tephra.Types.Position.{Position, add, add-eq, u64_mod}
use tephra.Types.Query.{Query}
use tephra.Event.{EventRef}
use tephra.Matching.{matches}
use tephra.Matching.Merge.{IsWellFormed}
use tephra.Index.Rising.{num_mem, RisingFrom, RisingFrom-weaken, rising_unique, num_mem-below}
use tephra.Index.Interface.{SegmentIndex, Indexes}
use tephra.Index.Search.{local_matches, search_after, search_back}
use tephra.Index.Search.Postings.{event_at}
use tephra.Index.Search.Locals.{AscendingEvents, local_matches-mem, local_matches-RisingFrom}

-- The scan: walk the events from position `at` on, and keep the positions of those that match.
unfoldable pub scan_from : Query → Position → List EventRef → List Position
scan_from q at [] = []
scan_from q at (e ∷ es) =
    let rest = scan_from q (suc at) es in if matches q e then at ∷ rest else rest

pub scan_from-RisingFrom :
    (q : Query) (at : Position) (es : List EventRef) → RisingFrom at (scan_from q at es)
unfolding scan_from
scan_from-RisingFrom q at [] = tt
scan_from-RisingFrom q at (e ∷ es) = elim (Bool-cases (matches q e)) [
  | inl m ↦ rw m (omega arith, scan_from-RisingFrom q (suc at) es)
  | inr m ↦ rw m (
      RisingFrom-weaken at (suc at) (scan_from q (suc at) es) (omega arith)
        (scan_from-RisingFrom q (suc at) es))
]

scan_from-mem :
    (q : Query) (at : Position) (es : List EventRef) (k n : ℕ)
    → n ≡ at + k
    → num_mem n (scan_from q at es) ≡ event_at (matches q) es k
unfolding scan_from
scan_from-mem q at [] k n h = refl
scan_from-mem q at (e ∷ es) zero n h =
    let rest =
      num_mem-below n (suc at) (scan_from q (suc at) es) (scan_from-RisingFrom q (suc at) es) in
    ground (arith, rest)
scan_from-mem q at (e ∷ es) (suc k) n h = ground (arith, scan_from-mem q (suc at) es k n)

-- Moving the scan's start moves what it finds.
scan_from-map :
    (q : Query) (base at : Position) (es : List EventRef)
    → base + at + length es ≤ u64_mod
    → map (add base) (scan_from q at es) ≡ scan_from q (base + at) es
unfolding scan_from
scan_from-map q base at [] h = refl
scan_from-map q base at (e ∷ es) h =
    let ih = scan_from-map q base (suc at) es (omega arith) in
    let here : add base at ≡ base + at = add-eq base at (omega arith) in
    let next : base + suc at ≡ suc (base + at) = omega arith in
    elim (Bool-cases (matches q e)) [
      | inl m ↦ rw (m, here, ← next) (ap (λ l. (base + at) ∷ l) ih)
      | inr m ↦ rw (m, ← next) ih
    ]

-- The evaluator's local positions are the scan's, in its order.
pub local_matches-eq-scan :
    (idx : SegmentIndex) (es : List EventRef) (q : Query)
    → Indexes idx es
    → IsWellFormed q
    → AscendingEvents es
    → local_matches idx q ≡ scan_from q 0 es
local_matches-eq-scan idx es q ok wf asc =
    rising_unique 0 (local_matches idx q) (scan_from q 0 es) (local_matches-RisingFrom idx q)
      (scan_from-RisingFrom q 0 es)
      (λ n. local_matches-mem idx es q n ok wf asc ∙ sym (scan_from-mem q 0 es n n (omega arith)))

globals-eq-scan :
    (idx : SegmentIndex) (es : List EventRef) (q : Query)
    → Indexes idx es
    → IsWellFormed q
    → AscendingEvents es
    → idx.base + length es ≤ u64_mod
    → map (add idx.base) (local_matches idx q) ≡ scan_from q idx.base es
globals-eq-scan idx es q ok wf asc h =
    let start : idx.base + 0 ≡ idx.base = omega arith in
    ap (map (add idx.base)) (local_matches-eq-scan idx es q ok wf asc)
    ∙ scan_from-map q idx.base 0 es (omega arith)
    ∙ ap (λ at. scan_from q at es) start

-- Over an index of given events with ascending tags, for a well-formed query, the evaluator returns
-- what a scan of the events does: the positions of the matching events after `after`, ascending and
-- each once.
pub search_after-eq-scan :
    (idx : SegmentIndex) (es : List EventRef) (q : Query) (after : Position)
    → Indexes idx es
    → IsWellFormed q
    → AscendingEvents es
    → idx.base + length es ≤ u64_mod
    → search_after idx q after ≡ keep (λ p. ltb after p) (scan_from q idx.base es)
unfolding search_after
search_after-eq-scan idx es q after ok wf asc h =
    ap (keep (λ p. ltb after p)) (globals-eq-scan idx es q ok wf asc h)

map-reverse :
    (f : ℕ → ℕ) (xs acc : List ℕ) → map f (reverse_aux xs acc) ≡ reverse_aux (map f xs) (map f acc)
map-reverse f [] acc = refl
map-reverse f (x ∷ xs) acc = map-reverse f xs (x ∷ acc)

-- Over an index of given events with ascending tags, for a well-formed query, the backward
-- evaluator returns the positions of the matching events below `before`, each once and newest
-- first.
pub search_back-eq-scan :
    (idx : SegmentIndex) (es : List EventRef) (q : Query) (before : Position)
    → Indexes idx es
    → IsWellFormed q
    → AscendingEvents es
    → idx.base + length es ≤ u64_mod
    → search_back idx q before ≡ keep (λ p. ltb p before) (reverse (scan_from q idx.base es))
unfolding search_back
search_back-eq-scan idx es q before ok wf asc h = ap (keep (λ p. ltb p before)) (
    map-reverse (add idx.base) (local_matches idx q) []
    ∙ ap reverse (globals-eq-scan idx es q ok wf asc h))
