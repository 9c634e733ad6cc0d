-- ===== src/Index/Plan/View.antt =====
-- ActiveView::term_len of crates/tephra/src/index/tail.rs against the postings of the same view.
use tephra.Prelude.{
  ℕ, suc, ◌-◌, ◌≤◌, ◌<◌, ◌≡◌, refl, false, List, [], ◌∷◌, Option, none, some, length, get_or, min,
  arith,
}
use tephra.Prelude.Str.{Str}
use tephra.Types.Position.{Position}
use tephra.Event.{EventRef}
use tephra.Tips.MaxMap.{lookup}
use tephra.Index.Rising.{RisingFrom}
use tephra.Index.Tail.{
  ActiveTail, collect_below, term_postings, term_len, make_view, view, visible_len,
}
use tephra.Index.Tail.Slots.{TermOf, carries}
use tephra.Index.Tail.Feed.{TailOf}
use tephra.Index.Tail.Visible.{term_postings-none, term_postings-some, get_elem?-get_or}
use tephra.Index.Plan.Bound.{Counts}

length-collect_below :
    (low upto : ℕ) (slot : List ℕ)
    → RisingFrom low slot
    → length (collect_below slot upto) ≤ min (length slot) (upto - low)
unfolding collect_below
length-collect_below low upto [] r = omega arith
length-collect_below low upto (p ∷ slot) r =
    ground (arith, r.0, length-collect_below (suc p) upto slot r.1)

term_len-none :
    (t : ActiveTail) (upto : ℕ) (tag : Str)
    → lookup tag t.tag_ids ≡ none
    → term_len t upto tag ≡ none
unfolding term_len
term_len-none t upto tag h = ground (arith, h)

term_len-some :
    (t : ActiveTail) (upto : ℕ) (tag : Str) (id : ℕ)
    → lookup tag t.tag_ids ≡ some id
    → id < length t.postings
    → term_len t upto tag ≡ some (min (length (get_or t.postings id [])) upto)
unfolding term_len
term_len-some t upto tag id h k = ground (arith, h, get_elem?-get_or t.postings id [] k)

term_len-Counts :
    (t : ActiveTail) (es : List EventRef) (upto : ℕ) (tag : Str) (o : Option ℕ)
    → TailOf t es
    → lookup tag t.tag_ids ≡ o
    → TermOf t o (carries es (length es) (λ s. false) tag)
    → Counts (term_len t upto tag) (term_postings t upto tag)
term_len-Counts t es upto tag none v h k =
    rw (term_len-none t upto tag h, term_postings-none t upto tag h) tt
term_len-Counts t es upto tag (some id) v h k =
    let there = v.terms.interner.dense tag id h in
    rw (term_len-some t upto tag id h there, term_postings-some t upto tag id h there)
      (omega (arith, length-collect_below 0 upto (get_or t.postings id []) k.rising))

-- Every view of a fed tail gives an upper bound for the postings it returns.
pub make_view-Counts :
    (t : ActiveTail) (es : List EventRef) (upto : ℕ) (tag : Str)
    → TailOf t es
    → Counts ((make_view t upto).term_len tag) ((make_view t upto).term_postings tag)
unfolding make_view
make_view-Counts t es upto tag v =
    term_len-Counts t es (make_view t upto).len tag (lookup tag t.tag_ids) v refl
      (v.terms.terms tag)

pub view-Counts :
    (t : ActiveTail) (es : List EventRef) (watermark : Position) (tag : Str)
    → TailOf t es
    → Counts ((view t watermark).term_len tag) ((view t watermark).term_postings tag)
unfolding view
view-Counts t es watermark tag v = make_view-Counts t es (visible_len t watermark) tag v
