-- ===== src/Read/Cap.antt =====
-- The cap on what a read gathers (extend_capped and the truncations of plan_positions in
-- crates/tephra/src/read/mod.rs).
use tephra.Prelude.{
  length-append, ℕ, zero, suc, ◌+◌, ◌-◌, ◌≤◌, ◌<◌, ◌≡◌, refl, ap, ◌∙◌, true, false, List, [], ◌∷◌,
  ◌++◌, Option, none, some, length, take, arith,
}
use tephra.Types.Position.{Position}
use tephra.Read.{reached, truncate, extend_capped}

take-append_some :
    (k : ℕ) (xs ys : List Position)
    → take k xs ++ take (k - length (take k xs)) ys ≡ take k (xs ++ ys)
take-append_some zero [] ys = refl
take-append_some zero (x ∷ xs) ys = refl
take-append_some (suc k) [] ys = let h : suc k - 0 ≡ suc k = omega arith in ap (λ n. take n ys) h
take-append_some (suc k) (x ∷ xs) ys =
    let h : suc k - suc (length (take k xs)) ≡ k - length (take k xs) = omega arith in
    ap (λ n. x ∷ (take k xs ++ take n ys)) h ∙ ap (λ l. x ∷ l) (take-append_some k xs ys)

-- Extending what is capped, and capping the whole.
pub extend_capped-truncate :
    (xs ys : List Position) (cap : Option ℕ)
    → extend_capped (truncate cap xs) ys cap ≡ truncate cap (xs ++ ys)
extend_capped-truncate xs ys none = refl
extend_capped-truncate xs ys (some k) = take-append_some k xs ys

take-full : (k : ℕ) (xs ys : List Position) → k ≤ length (take k xs) → take k (xs ++ ys) ≡ take k xs
take-full zero xs ys h = refl
take-full (suc k) [] ys h = absurd (omega arith)
take-full (suc k) (x ∷ xs) ys h = ap (λ l. x ∷ l) (take-full k xs ys (omega arith))

-- Nothing is added behind a cap that is met.
pub truncate-reached :
    (xs ys : List Position) (cap : Option ℕ)
    → reached cap (truncate cap xs) ≡ true
    → truncate cap (xs ++ ys) ≡ truncate cap xs
truncate-reached xs ys none h = cc
truncate-reached xs ys (some k) h = take-full k xs ys (ground (arith, h))

take_short : (k : ℕ) (xs : List Position) → length (take k xs) < k → take k xs ≡ xs
take_short zero xs h = absurd (omega arith)
take_short (suc k) [] h = refl
take_short (suc k) (x ∷ xs) h = ap (λ l. x ∷ l) (take_short k xs (omega arith))

pub truncate-unreached :
    (xs : List Position) (cap : Option ℕ)
    → reached cap (truncate cap xs) ≡ false
    → truncate cap xs ≡ xs
truncate-unreached xs none h = refl
truncate-unreached xs (some k) h = take_short k xs (ground (arith, h))

take-take : (k : ℕ) (xs : List Position) → take k (take k xs) ≡ take k xs
take-take zero xs = refl
take-take (suc k) [] = refl
take-take (suc k) (x ∷ xs) = ap (λ l. x ∷ l) (take-take k xs)

pub truncate_twice :
    (xs : List Position) (cap : Option ℕ) → truncate cap (truncate cap xs) ≡ truncate cap xs
truncate_twice xs none = refl
truncate_twice xs (some k) = take-take k xs

pub truncate_nil : (cap : Option ℕ) → truncate cap [] ≡ []
truncate_nil none = refl
truncate_nil (some zero) = refl
truncate_nil (some (suc k)) = refl

-- Adding the position that meets the cap, and nothing below it.
pub take-filled :
    (out : List Position) (p : Position) (ys : List Position) (cap : Option ℕ)
    → reached cap out ≡ false
    → reached cap (out ++ p ∷ []) ≡ true
    → truncate cap (out ++ p ∷ ys) ≡ out ++ p ∷ []
take-filled out p ys Option.none h k = cc
take-filled out p ys (Option.some n) h k =
    filled n out (ground (arith, h)) (ground (arith, k, length-append out (p ∷ [])))
  where
    filled :
        (n : ℕ) (out : List Position)
        → length out < n
        → n ≤ length out + 1
        → take n (out ++ p ∷ ys) ≡ out ++ p ∷ []
    filled zero out a b = absurd (omega arith)
    filled (suc zero) [] a b = refl
    filled (suc (suc n)) [] a b = absurd (omega arith)
    filled (suc n) (x ∷ out) a b = ap (λ l. x ∷ l) (filled n out (omega arith) (omega arith))

pub unreached :
    (out : List Position) (cap : Option ℕ) → reached cap out ≡ false → truncate cap out ≡ out
unreached out Option.none h = refl
unreached out (Option.some n) h = short n out (ground (arith, h))
  where
    short : (n : ℕ) (out : List Position) → length out < n → take n out ≡ out
    short zero out a = absurd (omega arith)
    short (suc n) [] a = refl
    short (suc n) (x ∷ out) a = ap (λ l. x ∷ l) (short n out (omega arith))
