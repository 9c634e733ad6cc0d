-- ===== src/Index/Postings.antt =====
-- crates/tephra/src/index/postings.rs: the LEB128 varint and the encoding of a term's postings. A u64 is
-- a number below 2 ^ 64, a u32 one below 2 ^ 32; the region is a list of bytes.
pub mod Varint
pub mod RoundTrip
use tephra.Prelude.{
  ℕ, zero, suc, ◌+◌, ◌-◌, ◌*◌, ◌/◌, ◌%◌, ◌^◌, ◌≡◌, List, [], ◌∷◌, ◌++◌, Option, none, some, Bool,
  ◌&&◌, if◌then◌else◌, ltb, leb, ◌==◌, length, drop,
}
use tephra.Prelude.Str.{Bytes}
use tephra.Prelude.Result.{Result, ok, err, ◌>>=◌}

abbrev pub u64_end : ℕ
u64_end = 2 ^ 64

abbrev pub u32_end : ℕ
u32_end = 2 ^ 32

-- TIER_SHIFT is 62, so that `value >> TIER_SHIFT` and `value & PAYLOAD_MASK` are a quotient and a rest.
abbrev pub tier_unit : ℕ
tier_unit = 2 ^ 62

abbrev pub tier_singleton : ℕ
tier_singleton = 0

abbrev pub tier_small : ℕ
tier_small = 1

abbrev pub tier_dense : ℕ
tier_dense = 2

-- PostingsError; `unreachable` is the panic of the tier 3.
pub data PostingsError : Type 0 where
  varint_overflow varint_truncated : PostingsError
  offset_out_of_bounds : ℕ → ℕ → PostingsError
  position_overflow reserved_dense_tier unreachable : PostingsError

-- The loop of encode_varint. `byte | 0x80` is a sum, as the byte is below 128; the value falls in
-- each round, so that itself is fuel enough.
unfoldable pub encode_loop : ℕ → ℕ → Bytes
encode_loop zero value = value % 128 ∷ []
encode_loop (suc fuel) value =
    let rest = encode_loop fuel (value / 128) in
    if value / 128 == 0 then value % 128 ∷ [] else (value % 128 + 128) ∷ rest

-- encode_varint
unfoldable pub encode_varint : ℕ → Bytes
unfolding encode_loop
encode_varint value = encode_loop value value

-- The loop of decode_varint. The value is below 2 ^ shift, so that `|=` adds.
unfoldable pub decode_loop : Bytes → ℕ → ℕ → ℕ → Result PostingsError (ℕ × ℕ)
decode_loop [] i value shift = err varint_truncated
decode_loop (byte ∷ bytes) i value shift =
    let value' = value + byte % 128 * 2 ^ shift % u64_end in
    let more = decode_loop bytes (i + 1) value' (shift + 7) in
    if i == 9 && ltb 1 byte
    then err varint_overflow
    else if ltb byte 128
    then ok (value', i + 1)
    else if i == 9
    then err varint_overflow
    else more

-- decode_varint
unfoldable pub decode_varint : Bytes → Result PostingsError (ℕ × ℕ)
unfolding decode_loop
decode_varint buf = decode_loop buf 0 0 0

-- The loop of encode_postings: what the deltas to `prev` add to the region.
unfoldable pub encode_deltas : ℕ → List ℕ → Bytes
unfolding encode_varint
encode_deltas prev [] = []
encode_deltas prev (pos ∷ rest) = encode_varint (pos - prev) ++ encode_deltas pos rest

-- encode_postings: the value for the term dictionary, and the region behind it. The first position is
-- its own delta.
unfoldable pub encode_postings : List ℕ → Bytes → ℕ × Bytes
unfolding encode_deltas
encode_postings [] region = (tier_small * tier_unit + length region, region ++ encode_varint 0)
encode_postings (pos ∷ []) region = (tier_singleton * tier_unit + pos, region)
encode_postings (pos ∷ next ∷ rest) region = (
  tier_small * tier_unit + length region,
  region ++ (encode_varint (length (pos ∷ next ∷ rest)) ++ encode_deltas 0 (pos ∷ next ∷ rest)),
)

-- The rounds of decode_delta_block: `count` deltas from `cursor`, of which the first is a position.
unfoldable pub decode_deltas : ℕ → Bool → ℕ → Bytes → Result PostingsError (List ℕ)
unfolding decode_varint
decode_deltas zero first pos cursor = ok []
decode_deltas (suc count) first pos cursor = decode_varint cursor >>= λ r.
    let pos' = if first then r.0 else pos + r.0 in
    if leb u32_end r.0
    then err position_overflow
    else if leb u32_end pos'
    then err position_overflow
    else decode_deltas count Bool.false pos' (drop r.1 cursor) >>= λ rest. ok (pos' ∷ rest)

-- decode_delta_block
unfoldable pub decode_delta_block : ℕ → Bytes → Result PostingsError (List ℕ)
unfolding decode_varint decode_deltas
decode_delta_block offset region =
    if ltb (length region) offset
    then err (offset_out_of_bounds offset (length region))
    else decode_varint (drop offset region) >>= λ r.
        decode_deltas r.0 Bool.true 0 (drop r.1 (drop offset region))

-- decode_postings
unfoldable pub decode_postings : ℕ → Bytes → Result PostingsError (List ℕ)
unfolding decode_delta_block
decode_postings value region =
    let tier = value / tier_unit in
    let payload = value % tier_unit in
    if tier == tier_singleton
    then ok (payload % u32_end ∷ [])
    else if tier == tier_small
    then decode_delta_block payload region
    else if tier == tier_dense
    then err reserved_dense_tier
    else err unreachable

-- posting_len
unfoldable pub posting_len : ℕ → Bytes → Result PostingsError ℕ
unfolding decode_varint
posting_len value region =
    let tier = value / tier_unit in
    let payload = value % tier_unit in
    if tier == tier_singleton
    then ok 1
    else if tier == tier_small
    then if ltb (length region) payload
      then err (offset_out_of_bounds payload (length region))
      else (decode_varint (drop payload region) >>= λ r.
          if leb u32_end r.0 then err position_overflow else ok r.0)
    else if tier == tier_dense
    then err reserved_dense_tier
    else err unreachable
