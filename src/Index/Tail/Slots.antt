-- ===== src/Index/Tail/Slots.antt =====
-- The posting slots of ActiveTail (crates/tephra/src/index/tail.rs) and what they hold in the midst
-- of an event.
use tephra.Prelude.{
  ℕ, zero, suc, ◌≤◌, ◌<◌, ◌≡◌, refl, sym, ap, ◌∙◌, Bool, false, List, [], ◌∷◌, ◌++◌, ◌||◌, ◌&&◌,
  Option, none, some, length, get_or, arith, ◌==◌, if◌then◌else◌,
}
use tephra.Prelude.Str.{Str}
use tephra.Event.{EventRef}
use tephra.Tips.MaxMap.{lookup}
use tephra.Index.Rising.{num_mem, RisingFrom}
use tephra.Index.Interface.{tag_at}
use tephra.Index.Interner.{IsInterner}
use tephra.Index.Tail.{ActiveTail, push_local}

pub length-push_local :
    (ps : List (List ℕ)) (id local : ℕ) → length (push_local ps id local) ≡ length ps
unfolding push_local
length-push_local [] id local = refl
length-push_local (p ∷ ps) zero local = refl
length-push_local (p ∷ ps) (suc id) local = ap suc (length-push_local ps id local)

pub get_or-push_local :
    (ps : List (List ℕ)) (id local i : ℕ)
    → id < length ps
    → get_or (push_local ps id local) i []
      ≡ (if id == i then get_or ps i [] ++ local ∷ [] else get_or ps i [])
unfolding push_local
get_or-push_local [] id local i h = elim h [ ]
get_or-push_local (p ∷ ps) zero local zero h = refl
get_or-push_local (p ∷ ps) zero local (suc i) h = ground arith
get_or-push_local (p ∷ ps) (suc id) local zero h = ground arith
get_or-push_local (p ∷ ps) (suc id) local (suc i) h =
    ground (arith, get_or-push_local ps id local i (omega arith))

pub get_or-new_slot : (ps : List (List ℕ)) (i : ℕ) → get_or (ps ++ [] ∷ []) i [] ≡ get_or ps i []
get_or-new_slot [] zero = refl
get_or-new_slot [] (suc i) = refl
get_or-new_slot (p ∷ ps) zero = refl
get_or-new_slot (p ∷ ps) (suc i) = get_or-new_slot ps i

pub RisingFrom-append :
    (low : ℕ) (ps : List ℕ) (local : ℕ)
    → RisingFrom low ps
    → ((n : ℕ) → local ≤ n → num_mem n ps ≡ false)
    → low ≤ local
    → RisingFrom low (ps ++ local ∷ [])
RisingFrom-append low [] local r h k = (k, tt)
RisingFrom-append low (p ∷ ps) local r h k = (
  r.0,
  RisingFrom-append (suc p) ps local r.1 (λ n l. ground (arith, h n l)) (ground (arith, h p)),
)

-- A posting list: rising, and holding what `p` says.
pub record Holds (slot : List ℕ) (p : ℕ → Bool) : Type 0 where
  pub rising : RisingFrom 0 slot
  pub holds : (n : ℕ) → num_mem n slot ≡ p n

-- What the term map says of `tag`, given which locals carry it.
abbrev pub TermOf : ActiveTail → Option ℕ → (ℕ → Bool) → Type 0
TermOf t none p = (n : ℕ) → p n ≡ false
TermOf t (some id) p = Holds (get_or t.postings id []) p

-- In the midst of an event at `local` whose tags in `done` have been indexed.
abbrev pub carries : List EventRef → ℕ → (Str → Bool) → Str → ℕ → Bool
carries es local done tag n = tag_at tag es n || (n == local && done tag)

pub record Partial (t : ActiveTail) (es : List EventRef) (local : ℕ) (done : Str → Bool)
    : Type 0 where
  pub interner : IsInterner t.tag_ids (length t.postings)
  pub terms : (tag : Str) → TermOf t (lookup tag t.tag_ids) (carries es local done tag)

pub TermOf-ext :
    (t : ActiveTail) (o : Option ℕ) (p q : ℕ → Bool)
    → ((n : ℕ) → p n ≡ q n)
    → TermOf t o p
    → TermOf t o q
TermOf-ext t none p q h k = λ n. sym (h n) ∙ k n
TermOf-ext t (some id) p q h k = record { rising = k.rising; holds = λ n. k.holds n ∙ h n }

pub Partial-ext :
    (t : ActiveTail) (es : List EventRef) (local : ℕ) (d d' : Str → Bool)
    → ((s : Str) → d s ≡ d' s)
    → Partial t es local d
    → Partial t es local d'
Partial-ext t es local d d' h v = record {
  interner = v.interner;
  terms = λ tag.
      TermOf-ext t (lookup tag t.tag_ids) (carries es local d tag) (carries es local d' tag)
        (λ n. ap (λ b. tag_at tag es n || (n == local && b)) (h tag)) (v.terms tag);
}

pub get_or-past : (ps : List (List ℕ)) → get_or ps (length ps) [] ≡ []
get_or-past [] = refl
get_or-past (p ∷ ps) = get_or-past ps
