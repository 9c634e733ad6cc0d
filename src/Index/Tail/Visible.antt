-- ===== src/Index/Tail/Visible.antt =====
-- A view of the tail up to a local count (make_view of crates/tephra/src/index/tail.rs).
use tephra.Prelude.{
  ℕ, zero, suc, ◌+◌, ◌*◌, ◌≤◌, ◌<◌, ◌≡◌, refl, sym, ◌∙◌, subst, false, List, [], ◌∷◌, ◌&&◌, Option,
  none, some, length, length-take, leb→le, ◌/◌, take, get_or, get_elem?, arith, Bool-cases, inl,
  inr, ltb, leb, min,
}
use tephra.Prelude.Str.{Str}
use tephra.Event.{EventRef}
use tephra.Tips.MaxMap.{lookup}
use tephra.Index.Rising.{num_mem, RisingFrom, num_mem-below}
use tephra.Index.Interface.{tag_at, type_is, IsPostings, IsType, Indexes}
use tephra.Index.Interner.{IsInterner}
use tephra.Index.Tail.{ActiveTail, collect_below, term_postings, chunks, covered, make_view}
use tephra.Index.Tail.Slots.{TermOf, carries}
use tephra.Index.Tail.Types.{type_at}
use tephra.Index.Tail.Feed.{TailOf}

collect_below-rising :
    (low upto : ℕ) (slot : List ℕ) → RisingFrom low slot → RisingFrom low (collect_below slot upto)
unfolding collect_below
collect_below-rising low upto [] r = tt
collect_below-rising low upto (p ∷ slot) r = elim (Bool-cases (leb upto p)) [
  | inl h ↦ rw h tt
  | inr h ↦ rw h (r.0, collect_below-rising (suc p) upto slot r.1)
]

collect_below-mem :
    (low upto n : ℕ) (slot : List ℕ)
    → RisingFrom low slot
    → num_mem n (collect_below slot upto) ≡ (ltb n upto && num_mem n slot)
unfolding collect_below
collect_below-mem low upto n [] r = ground (arith, Bool-cases (ltb n upto))
collect_below-mem low upto n (p ∷ slot) r =
    ground (arith, collect_below-mem (suc p) upto n slot r.1, r.0, num_mem-below n (suc p) slot r.1)

tag_at-take :
    (tag : Str) (k : ℕ) (es : List EventRef) (n : ℕ)
    → tag_at tag (take k es) n ≡ (ltb n k && tag_at tag es n)
tag_at-take tag zero es n = ground arith
tag_at-take tag (suc k) [] n = ground (arith, Bool-cases (ltb n (suc k)))
tag_at-take tag (suc k) (e ∷ es) zero = ground (arith)
tag_at-take tag (suc k) (e ∷ es) (suc n) = ground (arith, tag_at-take tag k es n)

type_is-take :
    (name : Str) (k : ℕ) (es : List EventRef) (n : ℕ)
    → type_is name (take k es) n ≡ (ltb n k && type_is name es n)
type_is-take name zero es n = ground arith
type_is-take name (suc k) [] n = ground (arith, Bool-cases (ltb n (suc k)))
type_is-take name (suc k) (e ∷ es) zero = ground (arith)
type_is-take name (suc k) (e ∷ es) (suc n) = ground (arith, type_is-take name k es n)

-- One more chunk than the whole ones reaches past the element.
div_chunk : (n : ℕ) → suc n ≤ (n / 1024 + 1) * 1024
div_chunk n = omega arith

chunks-cover : (n : ℕ) → n ≤ chunks n * 1024
unfolding chunks
chunks-cover zero = omega arith
chunks-cover (suc n) = elim (Bool-cases (leb (n / 1024 + 1) (chunks n))) [
  | inl h ↦ rw h (omega (arith, div_chunk n, leb→le (n / 1024 + 1) (chunks n) h))
  | inr h ↦ rw h (omega (arith, div_chunk n))
]

pub get_elem?-get_or :
    {A : Type 0} (xs : List A) (n : ℕ) (d : A)
    → n < length xs
    → get_elem? xs n ≡ some (get_or xs n d)
get_elem?-get_or [] n d h = elim h [ ]
get_elem?-get_or (x ∷ xs) zero d h = refl
get_elem?-get_or (x ∷ xs) (suc n) d h = get_elem?-get_or xs n d (omega arith)

pub term_postings-none :
    (t : ActiveTail) (upto : ℕ) (tag : Str)
    → lookup tag t.tag_ids ≡ none
    → term_postings t upto tag ≡ none
unfolding term_postings
term_postings-none t upto tag h = ground (arith, h)

pub term_postings-some :
    (t : ActiveTail) (upto : ℕ) (tag : Str) (id : ℕ)
    → lookup tag t.tag_ids ≡ some id
    → id < length t.postings
    → term_postings t upto tag ≡ some (collect_below (get_or t.postings id []) upto)
unfolding term_postings
term_postings-some t upto tag id h k = ground (arith, h, get_elem?-get_or t.postings id [] k)

make_view-terms :
    (t : ActiveTail) (es : List EventRef) (upto : ℕ) (tag : Str) (o : Option ℕ)
    → IsInterner t.tag_ids (length t.postings)
    → lookup tag t.tag_ids ≡ o
    → TermOf t o (carries es (length es) (λ s. false) tag)
    → IsPostings (term_postings t upto tag) tag (take upto es)
make_view-terms t es upto tag none i h k =
    subst (λ o. IsPostings o tag (take upto es)) (sym (term_postings-none t upto tag h))
      (λ n. ground (arith, tag_at-take tag upto es n, k n))
make_view-terms t es upto tag (some id) i h k =
    subst (λ o. IsPostings o tag (take upto es))
      (sym (term_postings-some t upto tag id h (i.dense tag id h)))
      (
        collect_below-rising 0 upto (get_or t.postings id []) k.rising,
        λ n. ground (
          arith,
          collect_below-mem 0 upto n (get_or t.postings id []) k.rising,
          tag_at-take tag upto es n,
          k.holds n,
        ),
      )

make_view-types :
    (t : ActiveTail) (es : List EventRef) (upto : ℕ) (name : Str) (o : Option ℕ)
    → IsType (type_at t) o name es
    → IsType (type_at t) o name (take upto es)
make_view-types t es upto name none k = λ n. ground (arith, type_is-take name upto es n, k n)
make_view-types t es upto name (some id) k =
    λ n l. ground (arith, type_is-take name upto es n, k n, length-take upto es)

-- A view up to a local count that the tail has reached indexes exactly that prefix.
pub make_view-Indexes :
    (t : ActiveTail) (es : List EventRef) (upto : ℕ)
    → TailOf t es
    → upto ≤ length es
    → Indexes (make_view t upto) (take upto es)
unfolding make_view covered
make_view-Indexes t es upto v h =
    let whole : min upto (chunks (length t.type_column) * 1024) ≡ upto =
      omega (arith, v.column.aligned, chunks-cover (length t.type_column)) in
    record {
      len = whole ∙ omega (arith, length-take upto es);
      terms = λ tag.
          subst (λ k. IsPostings (term_postings t k tag) tag (take upto es)) (sym whole)
            (make_view-terms t es upto tag (lookup tag t.tag_ids) v.terms.interner refl
              (v.terms.terms tag));
      types = λ name. make_view-types t es upto name (lookup name t.type_ids) (v.column.types name);
    }
