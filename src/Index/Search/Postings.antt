-- ===== src/Index/Search/Postings.antt =====
-- Intersecting posting lists in crates/tephra/src/index/search.rs.
use tephra.Prelude.{
  ℕ, zero, suc, ◌≤◌, ◌<◌, ◌≡◌, refl, sym, ap, ◌∙◌, Bool, false, List, [], ◌∷◌, ◌&&◌, Option, none,
  some, all, ltb, length, get_elem?, arith, Bool-cases, inl, inr,
}
use tephra.Prelude.Str.{Str, mem}
use tephra.Types.Tags.{Tags}
use tephra.Event.{EventRef, tags}
use tephra.Index.Rising.{num_mem, num_mem-keep}
use tephra.Index.Interface.{SegmentIndex, Indexes, IsPostings, tag_at}
use tephra.Index.Search.{insert_by_len, sort_by_len, filter_by, intersect, collect_postings}

-- A test on the event at a local position; false beyond the last event.
abbrev pub event_at : (EventRef → Bool) → List EventRef → ℕ → Bool
event_at p es local = elim (get_elem? es local) [ none ↦ false | some e ↦ p e ]

pub event_at_past :
    (p : EventRef → Bool) (es : List EventRef) (n : ℕ) → length es ≤ n → event_at p es n ≡ false
event_at_past p [] n h = refl
event_at_past p (e ∷ es) zero h = absurd (omega arith)
event_at_past p (e ∷ es) (suc n) h = event_at_past p es n (omega arith)

all-insert_by_len :
    (p : List ℕ → Bool) (l : List ℕ) (ls : List (List ℕ))
    → all p (insert_by_len l ls) ≡ (p l && all p ls)
unfolding insert_by_len
all-insert_by_len p l [] = refl
all-insert_by_len p l (m ∷ ms) = ground (arith, all-insert_by_len p l ms)

all-sort_by_len : (p : List ℕ → Bool) (ls : List (List ℕ)) → all p (sort_by_len ls) ≡ all p ls
unfolding sort_by_len
all-sort_by_len p [] = refl
all-sort_by_len p (l ∷ ls) =
    ground (arith, all-insert_by_len p l (sort_by_len ls), all-sort_by_len p ls)

num_mem-filter_by :
    (n : ℕ) (l : List ℕ) (ls : List (List ℕ))
    → num_mem n (filter_by (l ∷ ls)) ≡ all (num_mem n) (l ∷ ls)
num_mem-filter_by n l ls = num_mem-keep (λ x. all (num_mem x) ls) n l

insert_by_len-cons :
    (l : List ℕ) (ls : List (List ℕ))
    → (m : List ℕ) × (ms : List (List ℕ)) × (insert_by_len l ls ≡ m ∷ ms)
unfolding insert_by_len
insert_by_len-cons l [] = (l, [], refl)
insert_by_len-cons l (m ∷ ms) = elim (Bool-cases (ltb (length m) (length l))) [
  | inl e ↦ (m, insert_by_len l ms, rw e)
  | inr e ↦ (l, m ∷ ms, rw e)
]

-- Walking the shortest list keeps what is on every list.
pub num_mem-intersect :
    (n : ℕ) (l : List ℕ) (ls : List (List ℕ))
    → num_mem n (intersect (l ∷ ls)) ≡ all (num_mem n) (l ∷ ls)
unfolding intersect sort_by_len
num_mem-intersect n l ls =
    let (m, ms, e) = insert_by_len-cons l (sort_by_len ls) in
    ap (λ x. num_mem n (filter_by x)) e
    ∙ num_mem-filter_by n m ms
    ∙ ap (all (num_mem n)) (sym e)
    ∙ all-insert_by_len (num_mem n) l (sort_by_len ls)
    ∙ ap (λ b. num_mem n l && b) (all-sort_by_len (num_mem n) ls)

pub IsPostings-some :
    (o : Option (List ℕ)) (ps : List ℕ) (t : Str) (es : List EventRef) (n : ℕ)
    → o ≡ some ps
    → IsPostings o t es
    → num_mem n ps ≡ tag_at t es n
IsPostings-some none ps t es n h k = cc
IsPostings-some (some qs) ps t es n h k = ground (arith, h, k.1 n)

pub IsPostings-none :
    (o : Option (List ℕ)) (t : Str) (es : List EventRef) (n : ℕ)
    → o ≡ none
    → IsPostings o t es
    → tag_at t es n ≡ false
IsPostings-none none t es n h k = k n
IsPostings-none (some qs) t es n h k = cc

-- Every posting list in hand misses what lies beyond the last event.
pub collect_postings-past :
    (idx : SegmentIndex) (es : List EventRef) (ok : Indexes idx es) (t : Str) (ts : Tags)
    (lists : List (List ℕ)) (n : ℕ)
    → collect_postings idx (t ∷ ts) ≡ some lists
    → length es ≤ n
    → all (num_mem n) lists ≡ false
unfolding collect_postings
collect_postings-past idx es ok t ts [] n h k = absurd (ground (arith, h))
collect_postings-past idx es ok t ts (l ∷ ls) n h k =
    let first : idx.term_postings t ≡ some l = ground (arith, h) in
    rw (
      IsPostings-some (idx.term_postings t) l t es n first (ok.terms t),
      event_at_past (λ e. mem t (tags e)) es n k,
    )

pub collect_postings-cons :
    (idx : SegmentIndex) (t : Str) (ts : Tags) (lists : List (List ℕ))
    → collect_postings idx (t ∷ ts) ≡ some lists
    → (l : List ℕ) × (ls : List (List ℕ)) × (lists ≡ l ∷ ls)
unfolding collect_postings
collect_postings-cons idx t ts [] h = absurd (ground (arith, h))
collect_postings-cons idx t ts (l ∷ ls) h = (l, ls, refl)

pub get_elem?-some-lt :
    (es : List EventRef) (n : ℕ) (e : EventRef) → get_elem? es n ≡ some e → n < length es
get_elem?-some-lt [] n e h = cc
get_elem?-some-lt (x ∷ es) zero e h = omega arith
get_elem?-some-lt (x ∷ es) (suc n) e h = omega (arith, get_elem?-some-lt es n e h)

pub get_elem?-none-le : (es : List EventRef) (n : ℕ) → get_elem? es n ≡ none → length es ≤ n
get_elem?-none-le [] n h = omega arith
get_elem?-none-le (x ∷ es) zero h = cc
get_elem?-none-le (x ∷ es) (suc n) h = omega (arith, get_elem?-none-le es n h)
