-- ===== src/Index/Tail/Terms.antt =====
-- The posting lists that ActiveTail::push keeps (crates/tephra/src/index/tail.rs).
use tephra.Prelude.{
  ℕ, suc, ◌≤◌, ◌<◌, ◌≡◌, ◌≢◌, refl, sym, ap, ◌∙◌, subst, Bool, true, false, List, [], ◌∷◌, ◌++◌,
  ◌||◌, Option, none, some, length, length-append, get_or, arith, Bool-cases, Option-cases, inl,
  inr, ◌==◌,
}
use tephra.Prelude.Str.{Str, str_eq, str_eq_iff, str_eq_self, mem}
use tephra.Types.Tags.{IsAscending}
use tephra.Types.Tags.Order.{IsAscending-tail, IsAscending-Above, mem-Above}
use tephra.Event.{EventRef, tags}
use tephra.Tips.MaxMap.{lookup}
use tephra.Index.Rising.{num_mem, RisingFrom, num_mem-append}
use tephra.Index.Search.Postings.{event_at_past}
use tephra.Index.Interner.{IsInterner, lookup-cons_self, lookup-cons_ne, IsInterner-cons}
use tephra.Index.Tail.{ActiveTail, intern_tag, push_local, index_tags}
use tephra.Index.Tail.Slots.{
  length-push_local, get_or-push_local, get_or-new_slot, RisingFrom-append, Holds, TermOf, carries,
  Partial, Partial-ext, get_or-past,
}

-- The tail with a fresh slot for `tag`.
abbrev grown : ActiveTail → Str → ActiveTail
grown t tag = record t {
  postings = t.postings ++ [] ∷ [];
  tag_ids = (tag, length t.postings) ∷ t.tag_ids;
}

TermOf-grown :
    (t : ActiveTail) (tag : Str) (o : Option ℕ) (p : ℕ → Bool)
    → TermOf t o p
    → TermOf (grown t tag) o p
TermOf-grown t tag none p k = k
TermOf-grown t tag (some id) p k = record {
  rising = rw (get_or-new_slot t.postings id) k.rising;
  holds = λ n. rw (get_or-new_slot t.postings id) (k.holds n);
}

module _ (t : ActiveTail) (es : List EventRef) (local : ℕ) (done : Str → Bool) (tag : Str)
    (v : Partial t es local done) where
  grown-term :
      lookup tag t.tag_ids ≡ none
      → (s : Str) → TermOf (grown t tag) (lookup s (grown t tag).tag_ids) (carries es local done s)
  grown-term absent s = elim (Bool-cases (str_eq tag s)) [
    | inl e ↦
        let same : tag ≡ s = (str_eq_iff tag s).0 e in
        let old : (n : ℕ) → carries es local done s n ≡ false =
          subst (λ x. (n : ℕ) → carries es local done x n ≡ false) same
            (subst (λ o. TermOf t o (carries es local done tag)) absent (v.terms tag)) in
        let slot : get_or (t.postings ++ [] ∷ []) (length t.postings) [] ≡ [] =
          get_or-new_slot t.postings (length t.postings) ∙ get_or-past t.postings in
        subst (λ o. TermOf (grown t tag) o (carries es local done s))
          (sym (
            ap (λ x. lookup x (grown t tag).tag_ids) (sym same)
            ∙ lookup-cons_self tag (length t.postings) t.tag_ids))
          (record { rising = rw slot tt; holds = λ n. rw slot (sym (old n)) })
    | inr e ↦
        subst (λ o. TermOf (grown t tag) o (carries es local done s))
          (sym (lookup-cons_ne tag s (length t.postings) t.tag_ids e))
          (TermOf-grown t tag (lookup s t.tag_ids) (carries es local done s) (v.terms s))
  ]

  grown-Partial : lookup tag t.tag_ids ≡ none → Partial (grown t tag) es local done
  grown-Partial absent = record {
    interner =
        subst (IsInterner (grown t tag).tag_ids)
          (let more : suc (length t.postings) ≡ length (t.postings ++ [] ∷ []) =
              omega (arith, length-append t.postings ([] ∷ [])) in
            more)
          (IsInterner-cons t.tag_ids (length t.postings) tag v.interner);
    terms = grown-term absent;
  }

  -- Indexing one tag of the event, at the slot that it was given.
  module _ (id : ℕ) (found : lookup tag t.tag_ids ≡ some id) (fresh : done tag ≡ false)
      (at : local ≡ length es) where
    abbrev pushed : ActiveTail
    pushed = record t { postings = push_local t.postings id local }

    in_range : id < length t.postings
    in_range = v.interner.dense tag id found

    -- A string with another lookup is another string.
    other : (s : Str) → lookup s t.tag_ids ≢ some id → str_eq tag s ≡ false
    other s h = elim (Bool-cases (str_eq tag s)) [
      | inl e ↦
          absurd (h (subst (λ x. lookup x t.tag_ids ≡ some id) ((str_eq_iff tag s).0 e) found))
      | inr e ↦ e
    ]

    slot-other :
        (i : ℕ)
        → (id == i) ≡ false
        → get_or (push_local t.postings id local) i [] ≡ get_or t.postings i []
    slot-other i h = ground (arith, get_or-push_local t.postings id local i in_range)

    slot-same :
        get_or (push_local t.postings id local) id [] ≡ get_or t.postings id [] ++ local ∷ []
    slot-same = ground (arith, get_or-push_local t.postings id local id in_range)

    module _ (k : Holds (get_or t.postings id []) (carries es local done tag)) where
      nothing_past : (n : ℕ) → local ≤ n → num_mem n (get_or t.postings id []) ≡ false
      nothing_past n h =
          ground (arith, k.holds n, fresh, event_at_past (λ e. mem tag (tags e)) es n (omega arith))

      pushed-slot :
          Holds
            (get_or t.postings id [] ++ local ∷ [])
            (carries es local (λ x. str_eq tag x || done x) tag)
      pushed-slot = record {
        rising =
            RisingFrom-append 0 (get_or t.postings id []) local k.rising nothing_past (omega arith);
        holds = λ n. ground (
          arith,
          num_mem-append n (get_or t.postings id []) (local ∷ []),
          k.holds n,
          fresh,
          str_eq_self tag,
        );
      }

    carries-other :
        (s : Str)
        → str_eq tag s ≡ false
        → (n : ℕ) → carries es local done s n ≡ carries es local (λ x. str_eq tag x || done x) s n
    carries-other s h n = rw h

    pushed-term :
        (s : Str) (o : Option ℕ)
        → lookup s t.tag_ids ≡ o
        → TermOf t o (carries es local done s)
        → TermOf pushed o (carries es local (λ x. str_eq tag x || done x) s)
    pushed-term s none e k = λ n. sym (carries-other s (other s (λ h. cc (h, e))) n) ∙ k n
    pushed-term s (some i) e k = elim (Bool-cases (id == i)) [
      | inl q ↦
          let same_id : i ≡ id = ground arith in
          let same : tag ≡ s = v.interner.injective tag s id found (e ∙ ap some same_id) in
          let k' : Holds (get_or t.postings id []) (carries es local done tag) =
            subst (λ x. Holds (get_or t.postings id []) (carries es local done x)) (sym same)
              (subst (λ j. Holds (get_or t.postings j []) (carries es local done s)) same_id k) in
          subst
            (λ x.
              Holds (get_or (push_local t.postings id local) i [])
                (carries es local (λ y. str_eq tag y || done y) x))
            same
            (subst (λ l. Holds l (carries es local (λ y. str_eq tag y || done y) tag))
              (sym (ap (λ j. get_or (push_local t.postings id local) j []) same_id ∙ slot-same))
              (pushed-slot k'))
      | inr q ↦
          let ne = other s (λ h. ground (arith, h, e, q)) in
          record {
            rising = subst (RisingFrom 0) (sym (slot-other i q)) k.rising;
            holds = λ n. ap (num_mem n) (slot-other i q) ∙ k.holds n ∙ carries-other s ne n;
          }
    ]

    pushed-Partial : Partial pushed es local (λ x. str_eq tag x || done x)
    pushed-Partial = record {
      interner =
          subst (IsInterner t.tag_ids) (sym (length-push_local t.postings id local)) v.interner;
      terms = λ s. pushed-term s (lookup s t.tag_ids) refl (v.terms s);
    }

-- What interning returns.
intern_tag-some :
    (t : ActiveTail) (tag : Str) (id : ℕ)
    → lookup tag t.tag_ids ≡ some id
    → intern_tag t tag ≡ (t, id)
unfolding intern_tag
intern_tag-some t tag id h = ground (arith, h)

intern_tag-none :
    (t : ActiveTail) (tag : Str)
    → lookup tag t.tag_ids ≡ none
    → intern_tag t tag ≡ (grown t tag, length t.postings)
unfolding intern_tag
intern_tag-none t tag h = ground (arith, h)

-- The state after one round of the loop.
abbrev pub step_tag : ActiveTail → Str → ℕ → ActiveTail
step_tag t tag local =
    let r = intern_tag t tag in record r.0 { postings = push_local r.0.postings r.1 local }

step_tag-Partial :
    (t : ActiveTail) (es : List EventRef) (local : ℕ) (done : Str → Bool) (tag : Str)
    → Partial t es local done
    → done tag ≡ false
    → local ≡ length es
    → Partial (step_tag t tag local) es local (λ x. str_eq tag x || done x)
step_tag-Partial t es local done tag v fresh at = elim (Option-cases (lookup tag t.tag_ids)) [
  | inl absent ↦
      subst
        (λ (r : ActiveTail × ℕ).
          Partial (record r.0 { postings = push_local r.0.postings r.1 local }) es local
            (λ x. str_eq tag x || done x))
        (sym (intern_tag-none t tag absent))
        (pushed-Partial (grown t tag) es local done tag (grown-Partial t es local done tag v absent)
          (length t.postings) (lookup-cons_self tag (length t.postings) t.tag_ids) fresh at)
  | inr (id, found) ↦
      subst
        (λ (r : ActiveTail × ℕ).
          Partial (record r.0 { postings = push_local r.0.postings r.1 local }) es local
            (λ x. str_eq tag x || done x))
        (sym (intern_tag-some t tag id found))
        (pushed-Partial t es local done tag v id found fresh at)
]

||_regroup : (a b c : Bool) → ((a || b) || c) ≡ (b || (a || c))
||_regroup true b c = ground (arith, Bool-cases b)
||_regroup false b c = refl

-- The whole loop, over tags that are distinct and not yet indexed.
pub index_tags-Partial :
    (ts : List Str) (t : ActiveTail) (es : List EventRef) (local : ℕ) (done : Str → Bool)
    → Partial t es local done
    → IsAscending ts
    → ((s : Str) → mem s ts ≡ true → done s ≡ false)
    → local ≡ length es
    → Partial (index_tags t ts local) es local (λ s. done s || mem s ts)
unfolding index_tags
index_tags-Partial [] t es local done v asc fresh at =
    Partial-ext t es local done (λ s. done s || false) (λ s. ground (arith, Bool-cases (done s))) v
index_tags-Partial (tag ∷ ts) t es local done v asc fresh at =
    let v' =
      step_tag-Partial t es local done tag v (fresh tag (ground (arith, str_eq_self tag))) at in
    let rest =
      index_tags-Partial ts (step_tag t tag local) es local (λ x. str_eq tag x || done x) v'
        (IsAscending-tail tag ts asc) (λ s m. fresh_later s m) at in
    Partial-ext (index_tags (step_tag t tag local) ts local) es local
      (λ s. (str_eq tag s || done s) || mem s ts) (λ s. done s || (str_eq tag s || mem s ts))
      (λ s. ||_regroup (str_eq tag s) (done s) (mem s ts)) rest
  where
    fresh_later : (s : Str) → mem s ts ≡ true → (str_eq tag s || done s) ≡ false
    fresh_later s m = elim (Bool-cases (str_eq tag s)) [
      | inl e ↦
          let again : mem tag ts ≡ true =
            subst (λ x. mem x ts ≡ true) (sym ((str_eq_iff tag s).0 e)) m in
          cc (again, mem-Above tag ts (IsAscending-Above tag ts asc))
      | inr e ↦ rw e (fresh s (ground (arith, e, m)))
    ]
