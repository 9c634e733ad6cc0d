-- ===== src/Seglog/Read/Buffer.antt =====
-- The read-ahead buffer of crates/seglog/src/read.rs: while it holds what the file holds, a read through
-- it is a read of the file.
use tephra.Prelude.{
  ℕ, zero, suc, ◌+◌, ◌-◌, ◌*◌, ◌/◌, ◌%◌, ◌≤◌, ◌≡◌, refl, sym, ap, ◌∙◌, List, [], ◌∷◌, length,
  length-drop, length-take, take, drop, arith, true, inl, inr, Bool-cases, max,
}
use tephra.Prelude.Str.{Bytes}
use tephra.Prelude.Le.{slice}
use tephra.Prelude.Result.{ok}
use tephra.Seglog.Read.{ReadAheadBuf, fill, read, covers, bytes_of, read_ahead_size, page_size}

module _ {ℓ} {A : Type ℓ} where
  drop-nil : (m : ℕ) → drop {A = A} m [] ≡ []
  drop-nil zero = refl
  drop-nil (suc m) = refl

  pub drop-drop : (m n : ℕ) (xs : List A) → drop m (drop n xs) ≡ drop (n + m) xs
  drop-drop m zero xs = ap (λ k. drop k xs) (omega arith)
  drop-drop m (suc n) [] = drop-nil m ∙ sym (drop-nil (suc n + m))
  drop-drop m (suc n) (x ∷ xs) =
      drop-drop m n xs
      ∙ ap (λ k. drop k (x ∷ xs)) (let e : suc (n + m) ≡ suc n + m = omega arith in e)

  pub take-take : (m n : ℕ) (xs : List A) → m ≤ n → take m (take n xs) ≡ take m xs
  take-take zero n xs h = refl
  take-take (suc m) zero xs h = absurd (omega arith)
  take-take (suc m) (suc n) [] h = refl
  take-take (suc m) (suc n) (x ∷ xs) h = ap (λ l. x ∷ l) (take-take m n xs (omega arith))

  -- A part of a part.
  pub take-drop-take :
      (m n k : ℕ) (xs : List A) → n + m ≤ k → take m (drop n (take k xs)) ≡ take m (drop n xs)
  take-drop-take m zero k xs h = take-take m k xs (omega arith)
  take-drop-take zero (suc n) k xs h = refl
  take-drop-take (suc m) (suc n) zero xs h = absurd (omega arith)
  take-drop-take (suc m) (suc n) (suc k) [] h = refl
  take-drop-take (suc m) (suc n) (suc k) (x ∷ xs) h = take-drop-take (suc m) n k xs (omega arith)

-- The buffer holds what the file holds at its offset.
abbrev pub Fresh : ReadAheadBuf → Bytes → Type 0
Fresh b file = b.buf ≡ take (length b.buf) (drop b.offset file)

pub slice-part :
    (file : Bytes) (start k offset len : ℕ)
    → start ≤ offset
    → offset + len ≤ start + k
    → slice (take k (drop start file)) (offset - start) (offset - start + len)
      ≡ slice file offset (offset + len)
slice-part file start k offset len a b =
    ap (λ m. take m (drop (offset - start) (take k (drop start file))))
      (let e : offset - start + len - (offset - start) ≡ len = omega arith in e)
    ∙ (take-drop-take len (offset - start) k (drop start file) (omega arith)
        ∙ (ap (take len) (drop-drop (offset - start) start file)
            ∙ (ap (λ m. take len (drop m file))
                  (let e : start + (offset - start) ≡ offset = omega arith in e)
                ∙ ap (λ m. take m (drop offset file))
                    (let e : len ≡ offset + len - offset = omega arith in e))))

bytes_of-slice :
    (b : ReadAheadBuf) (file : Bytes) (offset len : ℕ)
    → Fresh b file
    → covers b offset len ≡ true
    → bytes_of b offset len ≡ slice file offset (offset + len)
bytes_of-slice b file offset len fresh h =
    ap (λ l. slice l (offset - b.offset) (offset - b.offset + len)) fresh
    ∙ slice-part file b.offset (length b.buf) offset len (ground (arith, h)) (ground (arith, h))

fill-Fresh : (file : Bytes) (offset len : ℕ) → Fresh (fill file offset len) file
unfolding fill
fill-Fresh file offset len =
    let start = offset - offset % read_ahead_size in
    let n = (max (offset + len - start) read_ahead_size + page_size - 1) / page_size * page_size in
    sym (shorter n (drop start file))
  where
    shorter : (n : ℕ) (xs : Bytes) → take (length (take n xs)) xs ≡ take n xs
    shorter zero xs = refl
    shorter (suc n) [] = refl
    shorter (suc n) (x ∷ xs) = ap (λ l. x ∷ l) (shorter n xs)

fill-covers :
    (file : Bytes) (offset len : ℕ)
    → offset + len ≤ length file
    → covers (fill file offset len) offset len ≡ true
unfolding fill
fill-covers file offset len h =
    let start = offset - offset % read_ahead_size in
    let n = (max (offset + len - start) read_ahead_size + page_size - 1) / page_size * page_size in
    let big : offset + len - start ≤ n = omega arith in
    ground (arith, big, length-take n (drop start file), length-drop start file)

-- A fresh buffer gives what the file holds, and is fresh afterwards.
pub read-Fresh :
    (b : ReadAheadBuf) (file : Bytes) (offset len : ℕ)
    → Fresh b file
    → offset + len ≤ length file
    → ((read b file offset len).1 ≡ ok (slice file offset (offset + len)))
      × Fresh (read b file offset len).0 file
unfolding read
read-Fresh b file offset len fresh h = elim (Bool-cases (covers b offset len)) [
  | inl e ↦ rw e (ap ok (bytes_of-slice b file offset len fresh e), fresh)
  | inr e ↦
      let c = fill-covers file offset len h in
      rw (e, c)
        (
          ap ok (
              bytes_of-slice (fill file offset len) file offset len (fill-Fresh file offset len) c),
          fill-Fresh file offset len,
        )
]
