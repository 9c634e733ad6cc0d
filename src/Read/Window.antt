-- ===== src/Read/Window.antt =====
-- Windows of the positions that a scan of the log finds.
use tephra.Prelude.{
  ℕ, suc, ◌+◌, ◌-◌, ◌≤◌, ◌<◌, ◌≡◌, refl, sym, ap, ◌∙◌, Bool, false, List, [], ◌∷◌, ◌++◌, append-nil,
  leb, ltb, length, keep, min, max, arith, Bool-cases, inl, inr,
}
use tephra.Types.Position.{Position}
use tephra.Types.Query.{Query}
use tephra.Event.{EventRef}
use tephra.Matching.{matches}
use tephra.Index.Rising.{RisingFrom}
use tephra.Index.Search.Oracle.{scan_from, scan_from-RisingFrom}
use tephra.Index.Plan.Bound.{within}

-- The positions in `(after, upto]` of the events of a log that match.
abbrev pub window : Query → List EventRef → Position → Position → List Position
window q all after upto = keep (within after upto) (scan_from q 1 all)

pub keep-append : (p : ℕ → Bool) (xs ys : List ℕ) → keep p (xs ++ ys) ≡ keep p xs ++ keep p ys
keep-append p [] ys = refl
keep-append p (x ∷ xs) ys = elim (Bool-cases (p x)) [
  | inl e ↦ rw e (ap (λ l. x ∷ l) (keep-append p xs ys))
  | inr e ↦ rw e (keep-append p xs ys)
]

keep-within_empty :
    (after upto : Position) (xs : List Position) → upto ≤ after → keep (within after upto) xs ≡ []
keep-within_empty after upto [] h = refl
keep-within_empty after upto (x ∷ xs) h = ground (arith, keep-within_empty after upto xs h)

pub keep-within_above :
    (after upto low : Position) (xs : List Position)
    → RisingFrom low xs
    → upto < low
    → keep (within after upto) xs ≡ []
keep-within_above after upto low [] r h = refl
keep-within_above after upto low (x ∷ xs) r h =
    ground (arith, keep-within_above after upto (suc x) xs r.1 (omega (arith, r.0)), r.0)

keep-within_lower :
    (a b c low : Position) (xs : List Position)
    → RisingFrom low xs
    → a ≤ b
    → b < low
    → keep (within a c) xs ≡ keep (within b c) xs
keep-within_lower a b c low [] r h k = refl
keep-within_lower a b c low (x ∷ xs) r h k =
    let rest = keep-within_lower a b c (suc x) xs r.1 h (omega (arith, r.0)) in
    ground (arith, rest, r.0)

keep-within_split :
    (a b c low : Position) (xs : List Position)
    → RisingFrom low xs
    → a ≤ b
    → b ≤ c
    → keep (within a b) xs ++ keep (within b c) xs ≡ keep (within a c) xs
keep-within_split a b c low [] r h k = refl
keep-within_split a b c low (x ∷ xs) r h k = elim (Bool-cases (leb x b)) [
  | inl e ↦ let rest = keep-within_split a b c (suc x) xs r.1 h k in ground (arith, rest, e)
  | inr e ↦
      let none_here = keep-within_above a b x (x ∷ xs) (omega arith, r.1) (ground (arith, e)) in
      ap (λ l. l ++ keep (within b c) (x ∷ xs)) none_here
      ∙ sym (keep-within_lower a b c x (x ∷ xs) (omega arith, r.1) h (ground (arith, e)))
]

pub scan_from-append :
    (q : Query) (at : Position) (xs ys : List EventRef)
    → scan_from q at (xs ++ ys) ≡ scan_from q at xs ++ scan_from q (at + length xs) ys
unfolding scan_from
scan_from-append q at [] ys =
    let start : at ≡ at + 0 = omega arith in ap (λ n. scan_from q n ys) start
scan_from-append q at (x ∷ xs) ys =
    let shift : suc at + length xs ≡ at + suc (length xs) = omega arith in
    let rest =
      scan_from-append q (suc at) xs ys
      ∙ ap (λ n. scan_from q (suc at) xs ++ scan_from q n ys) shift in
    elim (Bool-cases (matches q x)) [ inl m ↦ rw m (ap (λ l. at ∷ l) rest) | inr m ↦ rw m rest ]

-- On the positions of the events only the test there counts.
pub keep-scan_from :
    (p p' : Position → Bool) (q : Query) (at : Position) (es : List EventRef)
    → ((n : Position) → at ≤ n → n < at + length es → p n ≡ p' n)
    → keep p (scan_from q at es) ≡ keep p' (scan_from q at es)
unfolding scan_from
keep-scan_from p p' q at [] h = refl
keep-scan_from p p' q at (e ∷ es) h =
    let rest = keep-scan_from p p' q (suc at) es (λ n a b. h n (omega arith) (omega arith)) in
    let here = h at (omega arith) (omega arith) in
    elim (Bool-cases (matches q e)) [
      | inl m ↦ elim (Bool-cases (p at)) [
        | inl t ↦ rw (m, t, sym here ∙ t) (ap (λ l. at ∷ l) rest)
        | inr t ↦ rw (m, t, sym here ∙ t) rest
      ]
      | inr m ↦ rw m rest
    ]

pub keep-scan_from_none :
    (p : Position → Bool) (q : Query) (at : Position) (es : List EventRef)
    → ((n : Position) → at ≤ n → n < at + length es → p n ≡ false)
    → keep p (scan_from q at es) ≡ []
unfolding scan_from
keep-scan_from_none p q at [] h = refl
keep-scan_from_none p q at (e ∷ es) h =
    let rest = keep-scan_from_none p q (suc at) es (λ n a b. h n (omega arith) (omega arith)) in
    elim (Bool-cases (matches q e)) [
      | inl m ↦ rw (m, h at (omega arith) (omega arith)) rest
      | inr m ↦ rw m rest
    ]

-- What a segment's scan finds in the window is the log's window clamped to the segment.
pub window-segment :
    (q : Query) (pre es post : List EventRef) (at after wm : Position)
    → at ≡ 1 + length pre
    → keep (within after wm) (scan_from q at es)
      ≡ window q (pre ++ (es ++ post)) (max after (at - 1)) (min (at + length es - 1) wm)
window-segment q pre es post at after wm h =
    let lo = max after (at - 1) in
    let hi = min (at + length es - 1) wm in
    let p = within lo hi in
    let first_part : keep p (scan_from q 1 pre) ≡ [] =
      keep-scan_from_none p q 1 pre (λ n a b. ground (arith, a, b, h)) in
    let last_part : keep p (scan_from q (1 + length pre + length es) post) ≡ [] =
      keep-scan_from_none p q (1 + length pre + length es) post
        (λ n a b. ground (arith, a, b, h)) in
    let here : keep (within after wm) (scan_from q at es) ≡ keep p (scan_from q at es) =
      keep-scan_from (within after wm) p q at es (λ n a b. ground (arith, a, b)) in
    let there : keep p (scan_from q at es) ≡ keep p (scan_from q (1 + length pre) es) =
      ap (λ n. keep p (scan_from q n es)) h in
    let middle = keep p (scan_from q (1 + length pre) es) in
    here
    ∙ there
    ∙ sym (append-nil middle)
    ∙ ap (λ l. middle ++ l) (sym last_part)
    ∙ sym (
        keep-append p (scan_from q (1 + length pre) es)
          (scan_from q (1 + length pre + length es) post))
    ∙ ap (keep p) (sym (scan_from-append q (1 + length pre) es post))
    ∙ ap (λ l. l ++ keep p (scan_from q (1 + length pre) (es ++ post))) (sym first_part)
    ∙ sym (keep-append p (scan_from q 1 pre) (scan_from q (1 + length pre) (es ++ post)))
    ∙ ap (keep p) (sym (scan_from-append q 1 pre (es ++ post)))

-- Two adjoining windows.
pub window-join :
    (q : Query) (all : List EventRef) (after wm at end : Position)
    → at ≤ end
    → window q all after (min at wm) ++ window q all (max after at) (min end wm)
      ≡ window q all after (min end wm)
window-join q all after wm at end h =
    let xs = scan_from q 1 all in
    elim (Bool-cases (ltb after (min at wm))) [
      | inl e ↦ elim (Bool-cases (leb at wm)) [
        | inl l ↦
            let a : max after at ≡ at = ground (arith, e) in
            let b : min at wm ≡ at = ground (arith, l) in
            rw (a, b)
              (keep-within_split after at (min end wm) 1 xs (scan_from-RisingFrom q 1 all)
                (ground (arith, e)) (ground (arith, l, h)))
        | inr l ↦
            let a : min end wm ≡ min at wm = ground (arith, l, h) in
            ap (λ l'. window q all after (min at wm) ++ l')
              (keep-within_empty (max after at) (min end wm) xs (ground (arith, l)))
            ∙ append-nil (window q all after (min at wm))
            ∙ ap (window q all after) (sym a)
      ]
      | inr e ↦ elim (Bool-cases (leb at wm)) [
        | inl l ↦
            let a : max after at ≡ after = ground (arith, e, l) in
            ap (λ l'. l' ++ window q all (max after at) (min end wm))
              (keep-within_empty after (min at wm) xs (ground (arith, e)))
            ∙ ap (λ n. window q all n (min end wm)) a
        | inr l ↦
            ap (λ l'. l' ++ window q all (max after at) (min end wm))
              (keep-within_empty after (min at wm) xs (ground (arith, e)))
            ∙ keep-within_empty (max after at) (min end wm) xs (ground (arith, l))
            ∙ sym (keep-within_empty after (min end wm) xs (ground (arith, l, e, h)))
      ]
    ]

pub window-empty :
    (q : Query) (all : List EventRef) (after upto : Position)
    → upto ≤ after
    → window q all after upto ≡ []
window-empty q all after upto h = keep-within_empty after upto (scan_from q 1 all) h
