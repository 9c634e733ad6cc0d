-- ===== src/Index/Postings/Varint.antt =====
-- The varint of crates/tephra/src/index/postings.rs.
use tephra.Prelude.{
  ℕ, zero, suc, ◌+◌, ◌*◌, ◌/◌, ◌%◌, ◌^◌, ◌≤◌, ◌<◌, ◌≡◌, refl, ap, ◌∙◌, ◌∷◌, ◌++◌, length, arith,
  false, ltb, ◌==◌, ◌&&◌, Bool-cases, inl, inr, lt→ltb, le→ltb_false,
}
use tephra.Prelude.Str.{Bytes}
use tephra.Prelude.Result.{Result, ok}
use tephra.Index.Postings.{encode_loop, encode_varint, decode_loop, decode_varint, PostingsError}
use native.Mathlib.Numerals.{towards_suc}

-- A varint takes one byte at least, and as many as the value has groups of seven bits.
pub length-encode_loop :
    (k fuel value : ℕ)
    → value < 128 ^ suc k
    → (1 ≤ length (encode_loop fuel value)) × (length (encode_loop fuel value) ≤ suc k)
unfolding encode_loop
length-encode_loop k zero value h = omega arith
length-encode_loop zero (suc fuel) value h = ground arith
length-encode_loop (suc k) (suc fuel) value h =
    ground (arith, length-encode_loop k fuel (value / 128) (omega arith))

-- A group of seven bits, the last one and another.
scaled : (b g P : ℕ) → b % 128 ≡ g → g * P < 2 ^ 64 → b % 128 * P % 2 ^ 64 ≡ g * P
scaled b g P e h = rw e (omega (arith, h))

last_byte :
    (b : ℕ) (rest : Bytes) (i acc shift : ℕ)
    → b < 128
    → (i == 9 && ltb 1 b) ≡ false
    → b * 2 ^ shift < 2 ^ 64
    → decode_loop (b ∷ rest) i acc shift ≡ ok (acc + b * 2 ^ shift, i + 1)
unfolding decode_loop
last_byte b rest i acc shift h k s =
    rw (k, lt→ltb b 128 h)
      (ap (λ (v : ℕ). ok (acc + v, i + 1)) (scaled b b (2 ^ shift) (omega arith) s))

inner_byte :
    (g : ℕ) (rest : Bytes) (i acc shift : ℕ)
    → g < 128
    → i < 9
    → g * 2 ^ shift < 2 ^ 64
    → decode_loop ((g + 128) ∷ rest) i acc shift
      ≡ decode_loop rest (i + 1) (acc + g * 2 ^ shift) (shift + 7)
unfolding decode_loop
inner_byte g rest i acc shift h k s =
    rw (lt→ne i 9 k, le→ltb_false (g + 128) 128 (omega arith))
      (ap (λ (v : ℕ). decode_loop rest (i + 1) (acc + v) (shift + 7))
        (scaled (g + 128) g (2 ^ shift) (omega arith) s))
  where
    lt→ne : (m n : ℕ) → m < n → (m == n) ≡ false
    lt→ne m n h = ground arith

-- In the tenth byte only one bit is left.
tenth : (i shift value : ℕ) → shift ≡ 7 * i → value * 2 ^ shift < 2 ^ 64 → i ≡ 9 → value ≤ 1
tenth i shift value hs b e =
    let s : shift ≡ 63 = omega arith in
    let b' : value * 2 ^ 63 < 2 ^ 64 = rw s at b in omega (arith, b')

not_tenth : (i b : ℕ) → (i ≡ 9 → b ≤ 1) → (i == 9 && ltb 1 b) ≡ false
not_tenth i b h = ground (arith, h)

-- The groups of a value, scaled.
groups : (value P : ℕ) → (value * P ≡ 128 * (value / 128 * P) + value % 128 * P)
groups value P =
    ap (λ (t : ℕ). t * P) (let e : value ≡ 128 * (value / 128) + value % 128 = omega arith in e)
    ∙ spread (value / 128) (value % 128) P
  where
    spread : (q g P : ℕ) → (128 * q + g) * P ≡ 128 * (q * P) + g * P
    spread q g P = grind arith

scaled_up : (q shift : ℕ) → q * 2 ^ (shift + 7) ≡ 128 * (q * 2 ^ shift)
scaled_up q shift = ap (λ (t : ℕ). q * t) (pow shift) ∙ spread q (2 ^ shift)
  where
    pow : (s : ℕ) → 2 ^ (s + 7) ≡ 128 * 2 ^ s
    pow s = simp towards_suc (omega arith)

    spread : (q P : ℕ) → q * (128 * P) ≡ 128 * (q * P)
    spread q P = grind arith

both_eq :
    {a b m n : ℕ} → a ≡ b → m ≡ n → ◌≡◌ {A = Result PostingsError (ℕ × ℕ)} (ok (a, m)) (ok (b, n))
both_eq p q = rw (p, q) refl

decode-encode_loop :
    (fuel value : ℕ) (rest : Bytes) (i acc shift : ℕ)
    → value ≤ fuel
    → i ≤ 9
    → shift ≡ 7 * i
    → value * 2 ^ shift < 2 ^ 64
    → decode_loop (encode_loop fuel value ++ rest) i acc shift
      ≡ ok (acc + value * 2 ^ shift, i + length (encode_loop fuel value))
unfolding encode_loop
decode-encode_loop zero value rest i acc shift h hi hs b =
    let z : value % 128 ≡ value = omega arith in
    rw z (
      last_byte value rest i acc shift (omega arith) (not_tenth i value (tenth i shift value hs b))
        b)
decode-encode_loop (suc fuel) value rest i acc shift h hi hs b =
    elim (Bool-cases (value / 128 == 0)) [
      | inl e ↦
          let z : value % 128 ≡ value = ground (arith, e) in
          rw (e, z)
            (last_byte value rest i acc shift (ground (arith, e))
              (not_tenth i value (tenth i shift value hs b)) b)
      | inr e ↦
          let q = value / 128 in
          let g = value % 128 in
          let split = groups value (2 ^ shift) in
          let scale : q * 2 ^ (shift + 7) ≡ 128 * (q * 2 ^ shift) = scaled_up q shift in
          let early : i < 9 = ground (arith, e, tenth i shift value hs b) in
          rw e (
            inner_byte g (encode_loop fuel q ++ rest) i acc shift (omega arith) early
              (omega (arith, split, b))
            ∙ (decode-encode_loop fuel q rest (i + 1) (acc + g * 2 ^ shift) (shift + 7)
                  (ground (arith, e)) (omega (arith, early)) (omega arith)
                  (omega (arith, split, scale, b))
                ∙ both_eq (omega (arith, split, scale)) (omega arith)))
    ]

-- A u64 that is encoded decodes to itself, taking its own bytes only, of which there are ten at most.
pub decode-encode_varint :
    (value : ℕ) (rest : Bytes)
    → value < 2 ^ 64
    → (decode_varint (encode_varint value ++ rest) ≡ ok (value, length (encode_varint value)))
      × (1 ≤ length (encode_varint value))
      × (length (encode_varint value) ≤ 10)
unfolding decode_varint encode_varint
decode-encode_varint value rest h =
    let len = length-encode_loop 9 value value (omega arith) in
    (
      decode-encode_loop value value rest 0 0 0 (omega arith) (omega arith) (omega arith)
            (omega arith)
          ∙ both_eq (omega arith) (omega arith),
      len.0,
      len.1,
    )
