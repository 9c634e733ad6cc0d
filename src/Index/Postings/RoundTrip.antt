-- ===== src/Index/Postings/RoundTrip.antt =====
-- What encode_postings of crates/tephra/src/index/postings.rs writes decodes again, with other terms'
-- postings around it in the region.
use tephra.Prelude.{
  ℕ, ◌+◌, ◌-◌, ◌/◌, ◌%◌, ◌^◌, ◌≤◌, ◌<◌, ◌≡◌, refl, ap, ◌∙◌, List, [], ◌∷◌, ◌++◌, append_assoc,
  length, length-append, drop, arith, Bool, true, false, le→ltb_false, lt→leb_false, if◌then◌else◌,
  drop-append_length,
}
use tephra.Prelude.Str.{Bytes}
use tephra.Prelude.Result.{Result, ok, ◌>>=◌}
use tephra.Index.Postings.{
  PostingsError, encode_varint, decode_varint, encode_deltas, encode_postings, decode_deltas,
  decode_delta_block, decode_postings, posting_len, tier_unit,
}
use tephra.Index.Postings.Varint.{decode-encode_varint}

-- Local positions that do not fall below `at`, each a u32.
abbrev pub Ascending : ℕ → List ℕ → Type 0
Ascending at [] = Unit
Ascending at (pos ∷ rest) = (at ≤ pos) × (pos < 2 ^ 32) × Ascending pos rest

decode-encode_deltas :
    (ps : List ℕ) (first : Bool) (prev : ℕ) (rest : Bytes)
    → Ascending prev ps
    → (first ≡ true → prev ≡ 0)
    → decode_deltas (length ps) first prev (encode_deltas prev ps ++ rest) ≡ ok ps
unfolding encode_deltas decode_deltas
decode-encode_deltas [] first prev rest a h = refl
decode-encode_deltas (pos ∷ ps) first prev rest a h =
    let delta = pos - prev in
    let more = encode_deltas pos ps ++ rest in
    let read = decode-encode_varint delta more (omega arith) in
    let moved : encode_deltas prev (pos ∷ ps) ++ rest ≡ encode_varint delta ++ more =
      append_assoc (encode_varint delta) (encode_deltas pos ps) rest in
    let reached : (if first then delta else prev + delta) ≡ pos = ground (arith, h) in
    rw
      (
        moved,
        read.0,
        lt→leb_false delta (2 ^ 32) (omega arith),
        reached,
        lt→leb_false pos (2 ^ 32) a.1,
        drop-append_length (encode_varint delta) more,
      )
      (ap (λ r. r >>= λ (l : List ℕ). ok (pos ∷ l))
        (decode-encode_deltas ps false pos rest a.2 (λ e. absurd (cc e))))

-- Which branch a value takes.
module _ (offset : ℕ) (region : Bytes) (addressed : offset < 2 ^ 62) where
  tier_of : (tier_unit + offset) / tier_unit ≡ 1
  tier_of = omega arith

  payload_of : (tier_unit + offset) % tier_unit ≡ offset
  payload_of = omega arith

  decode_postings-small :
      decode_postings (tier_unit + offset) region ≡ decode_delta_block offset region
  unfolding decode_postings
  decode_postings-small = rw (tier_of, payload_of) refl

  module _ (bytes : Bytes) (n k : ℕ) (within : offset ≤ length region)
      (from : drop offset region ≡ bytes) (read : decode_varint bytes ≡ ok (n, k)) where
    posting_len-small : n < 2 ^ 32 → posting_len (tier_unit + offset) region ≡ ok n
    unfolding posting_len
    posting_len-small h =
        rw
          (
            tier_of,
            payload_of,
            le→ltb_false (length region) offset within,
            from,
            read,
            lt→leb_false n (2 ^ 32) h,
          )
          refl

    decode_delta_block-found :
        (o : Result PostingsError (List ℕ))
        → decode_deltas n true 0 (drop k bytes) ≡ o
        → decode_delta_block offset region ≡ o
    unfolding decode_delta_block
    decode_delta_block-found o h = rw (le→ltb_false (length region) offset within, from, read) h

-- Postings of two positions or more, behind the region and before what is added to it later.
block-decodes :
    (ps : List ℕ) (region more : Bytes)
    → Ascending 0 ps
    → length ps < 2 ^ 32
    → length region < 2 ^ 62
    → (decode_postings
          (tier_unit + length region)
          ((region ++ (encode_varint (length ps) ++ encode_deltas 0 ps)) ++ more)
        ≡ ok ps)
      × (posting_len
            (tier_unit + length region)
            ((region ++ (encode_varint (length ps) ++ encode_deltas 0 ps)) ++ more)
          ≡ ok (length ps))
block-decodes ps region more a h room =
    let count = encode_varint (length ps) in
    let deltas = encode_deltas 0 ps in
    let whole = (region ++ (count ++ deltas)) ++ more in
    let bytes = count ++ (deltas ++ more) in
    let e : whole ≡ region ++ bytes =
      append_assoc region (count ++ deltas) more
      ∙ ap (λ l. region ++ l) (append_assoc count deltas more) in
    let within : length region ≤ length whole =
      omega (arith, ap length e, length-append region bytes) in
    let from : drop (length region) whole ≡ bytes =
      ap (drop (length region)) e ∙ drop-append_length region bytes in
    let read = (decode-encode_varint (length ps) (deltas ++ more) (omega arith)).0 in
    (
      decode_postings-small (length region) whole room
          ∙ decode_delta_block-found (length region) whole room bytes (length ps) (length count)
              within from read (ok ps)
              (ap (decode_deltas (length ps) true 0) (drop-append_length count (deltas ++ more))
                ∙ decode-encode_deltas ps true 0 more a (λ e. refl)),
      posting_len-small (length region) whole room bytes (length ps) (length count) within from read
          h,
    )

-- Postings that are not empty and ascend, in a region that a payload can address: the value that
-- encode_postings returns decodes to them, and posting_len gives their number, in the region that it
-- returns and however this grows.
pub decode-encode_postings :
    (pos : ℕ) (rest : List ℕ) (region more : Bytes)
    → Ascending 0 (pos ∷ rest)
    → length (pos ∷ rest) < 2 ^ 32
    → length region < 2 ^ 62
    → (decode_postings
          (encode_postings (pos ∷ rest) region).0
          ((encode_postings (pos ∷ rest) region).1 ++ more)
        ≡ ok (pos ∷ rest))
      × (posting_len
            (encode_postings (pos ∷ rest) region).0
            ((encode_postings (pos ∷ rest) region).1 ++ more)
          ≡ ok (length (pos ∷ rest)))
unfolding encode_postings decode_postings posting_len
decode-encode_postings pos [] region more a h room =
    let tier : (0 + pos) / tier_unit ≡ 0 = omega (arith, a) in
    let payload : (0 + pos) % tier_unit % 2 ^ 32 ≡ pos = omega (arith, a) in
    (rw (tier, payload) refl, rw tier refl)
decode-encode_postings pos (next ∷ rest) region more a h room =
    block-decodes (pos ∷ next ∷ rest) region more a h room
