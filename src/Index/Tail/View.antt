-- ===== src/Index/Tail/View.antt =====
-- The views of the tail as a SegmentIndex (make_view, view and view_full of
-- crates/tephra/src/index/tail.rs).
use tephra.Prelude.{
  suc, ◌+◌, ◌-◌, ◌≤◌, ◌<◌, ◌≡◌, refl, sym, ap, ◌∙◌, subst, false, List, [], ◌∷◌, ◌++◌, length, All,
  ◌==◌, append-nil, append_assoc, take, arith, Bool-cases, inl, inr,
}
use tephra.Prelude.Str.{Str}
use tephra.Prelude.Result.{Result, ok, ◌>>=◌, Result-cases}
use tephra.Types.Position.{Position, u32_max}
use tephra.Types.Tags.{IsAscending}
use tephra.Event.{EventRef, tags}
use tephra.Tips.MaxMap.{lookup}
use tephra.Index.Interface.{IsType, Indexes}
use tephra.Index.Interner.{IsInterner-empty}
use tephra.Index.Tail.{ActiveTail, make_view, view, view_full, visible_len, new, push, PushError}
use tephra.Index.Tail.Slots.{TermOf, carries}
use tephra.Index.Tail.Types.{type_at}
use tephra.Index.Tail.Feed.{TailOf, push-TailOf, push-base}
use tephra.Index.Tail.Visible.{make_view-Indexes}

no_types :
    (base : Position) (name : Str)
    → IsType (type_at (new base)) (lookup name (new base).type_ids) name []
unfolding new lookup
no_types base name = λ n. refl

no_terms :
    (base : Position) (tag : Str)
    → TermOf (new base) (lookup tag (new base).tag_ids) (carries [] 0 (λ s. false) tag)
unfolding new lookup
no_terms base tag = λ n. ground (arith, Bool-cases (n == 0))

pub new-TailOf : (base : Position) → TailOf (new base) []
unfolding new
new-TailOf base = record {
  column = record {
    interner = IsInterner-empty;
    aligned = refl;
    known = λ n h. elim h [ ];
    types = λ name. no_types base name;
  };
  terms = record { interner = IsInterner-empty; terms = λ tag. no_terms base tag };
}

-- The writer feeds the events of a segment one by one, at rising positions.
unfoldable pub feed : ActiveTail → Position → List EventRef → Result PushError ActiveTail
unfolding push
feed t at [] = ok t
feed t at (e ∷ es) = push t at e >>= λ t'. feed t' (suc at) es

pub feed-TailOf :
    (more es : List EventRef) (t t' : ActiveTail) (at : Position)
    → TailOf t es
    → All (λ e. IsAscending (tags e)) more
    → feed t at more ≡ ok t'
    → TailOf t' (es ++ more)
unfolding feed
feed-TailOf [] es t t' at v asc h =
    subst (TailOf t') (sym (append-nil es)) (subst (λ x. TailOf x es) (ground (arith, h)) v)
feed-TailOf (e ∷ more) es t t' at v asc h = elim (Result-cases (push t at e)) [
  | inl (t'', pushed) ↦ subst (TailOf t') (append_assoc es (e ∷ []) more) (
      feed-TailOf more (es ++ e ∷ []) t'' t' (suc at) (push-TailOf t t'' es at e v asc.0 pushed)
        asc.1 (ground (arith, h, pushed)))
  | inr (x, refused) ↦ absurd (ground (arith, h, refused))
]

take-length : {A : Type 0} (xs : List A) → take (length xs) xs ≡ xs
take-length [] = refl
take-length (x ∷ xs) = ap (λ l. x ∷ l) (take-length xs)

pub view_full-Indexes :
    (t : ActiveTail) (es : List EventRef) → TailOf t es → Indexes (view_full t) es
unfolding view_full
view_full-Indexes t es v =
    subst (λ n. Indexes (make_view t n) es) (sym v.column.aligned)
      (subst (Indexes (make_view t (length es))) (take-length es)
        (make_view-Indexes t es (length es) v (omega arith)))

pub view_full-base : (t : ActiveTail) → (view_full t).base ≡ t.base
unfolding view_full make_view
view_full-base t = refl

-- The tail that the events of a segment, with ascending tags, were fed to indexes those events:
-- for every tag the posting list that a full view returns is rising and holds the local positions
-- of exactly the events that carry the tag, and a type's id stands in the column exactly at that
-- type's events.
pub feed-Indexes :
    (base : Position) (es : List EventRef) (t : ActiveTail)
    → All (λ e. IsAscending (tags e)) es
    → feed (new base) base es ≡ ok t
    → Indexes (view_full t) es
feed-Indexes base es t asc h =
    view_full-Indexes t es (feed-TailOf es [] (new base) t base (new-TailOf base) asc h)

feed-base :
    (more es : List EventRef) (t t' : ActiveTail) (at : Position)
    → TailOf t es
    → All (λ e. IsAscending (tags e)) more
    → feed t at more ≡ ok t'
    → t'.base ≡ t.base
unfolding feed
feed-base [] es t t' at v asc h = ground (arith, h)
feed-base (e ∷ more) es t t' at v asc h = elim (Result-cases (push t at e)) [
  | inl (t'', pushed) ↦
      feed-base more (es ++ e ∷ []) t'' t' (suc at) (push-TailOf t t'' es at e v asc.0 pushed) asc.1
        (ground (arith, h, pushed))
      ∙ push-base t t'' es at e v pushed
  | inr (x, refused) ↦ absurd (ground (arith, h, refused))
]

pub base_new : (base : Position) → (new base).base ≡ base
unfolding new
base_new base = refl

-- The view at a watermark within the segment, of a tail that holds `es`.
pub view-TailOf :
    (t : ActiveTail) (es : List EventRef) (watermark : Position)
    → TailOf t es
    → t.base ≤ watermark
    → watermark < t.base + length es
    → length es ≤ u32_max
    → Indexes (view t watermark) (take (watermark - t.base + 1) es)
unfolding view visible_len
view-TailOf t es watermark v low high short =
    let seen : visible_len t watermark ≡ watermark - t.base + 1 = ground arith in
    subst (λ n. Indexes (make_view t n) (take (watermark - t.base + 1) es)) (sym seen)
      (make_view-Indexes t es (watermark - t.base + 1) v (omega arith))

pub view-base : (t : ActiveTail) (watermark : Position) → (view t watermark).base ≡ t.base
unfolding view make_view
view-base t watermark = refl

-- A reader's view at a watermark within the segment, of fewer events than a u32 counts and with
-- ascending tags, indexes exactly the events at or below it, whatever the writer has pushed
-- beyond.
pub view-Indexes :
    (base watermark : Position) (es : List EventRef) (t : ActiveTail)
    → All (λ e. IsAscending (tags e)) es
    → feed (new base) base es ≡ ok t
    → base ≤ watermark
    → watermark < base + length es
    → length es ≤ u32_max
    → Indexes (view t watermark) (take (watermark - base + 1) es)
view-Indexes base watermark es t asc h low high short =
    let same = feed-base es [] (new base) t base (new-TailOf base) asc h ∙ base_new base in
    subst (λ b. Indexes (view t watermark) (take (watermark - b + 1) es)) same
      (view-TailOf t es watermark (feed-TailOf es [] (new base) t base (new-TailOf base) asc h)
        (omega (arith, same)) (omega (arith, same)) short)
