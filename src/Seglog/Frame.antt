-- ===== src/Seglog/Frame.antt =====
-- The framing of crates/seglog/src/lib.rs: what a record on disk reads back as.
use tephra.Prelude.{
  ℕ, ◌+◌, ◌%◌, ◌^◌, ◌<◌, ◌≡◌, refl, sym, ap, ◌∙◌, true, false, [], ◌∷◌, ◌++◌, append_assoc, length,
  length-append, take, all, ◌==◌, arith, Bool-cases, inl, inr, some,
}
use tephra.Prelude.Str.{Bytes}
use tephra.Prelude.Le.{to_le, of_le, of_le-to_le, slice, bytes_at, bytes_at-behind}
use tephra.Seglog.{
  Crc32, is_truncation_marker, record_bytes, marker_bytes, control_flag, commit_marker_payload,
  batch_commit,
}

-- A length field, the checksum over it and the payload, and the payload.
abbrev pub head : Crc32 → ℕ → Bytes → Bytes
head c raw payload = to_le 4 raw ++ to_le 4 (c.hash (to_le 4 raw ++ payload))

abbrev pub framed : Crc32 → ℕ → Bytes → Bytes
framed c raw payload = head c raw payload ++ payload

pub record_bytes-framed :
    (c : Crc32) (header body : Bytes)
    → record_bytes c header body
      ≡ framed c ((length header + length body) % 2 ^ 32) (header ++ body)
unfolding record_bytes
record_bytes-framed c header body = refl

pub marker_bytes-framed :
    (c : Crc32) (position : ℕ)
    → marker_bytes c position
      ≡ framed c (commit_marker_payload + control_flag) (batch_commit ∷ to_le 8 position)
unfolding marker_bytes
marker_bytes-framed c position = refl

pub length-head : (c : Crc32) (raw : ℕ) (payload : Bytes) → length (head c raw payload) ≡ 8
length-head c raw payload = refl

pub length-framed :
    (c : Crc32) (raw : ℕ) (payload : Bytes) → length (framed c raw payload) ≡ 8 + length payload
length-framed c raw payload = omega arith

pub head-raw :
    (c : Crc32) (raw : ℕ) (payload : Bytes)
    → raw < 2 ^ 32
    → of_le (take 4 (head c raw payload)) ≡ raw
head-raw c raw payload h = of_le-to_le 4 raw h

pub head-crc :
    (c : Crc32) (raw : ℕ) (payload : Bytes)
    → of_le (slice (head c raw payload) 4 8) ≡ c.hash (to_le 4 raw ++ payload)
head-crc c raw payload = of_le-to_le 4 (c.hash (to_le 4 raw ++ payload)) (c.hash-lt _)

of_le-zeros : (bs : Bytes) → all (λ b. b == 0) bs ≡ true → of_le bs ≡ 0
of_le-zeros [] h = refl
of_le-zeros (b ∷ bs) h = ground (arith, of_le-zeros bs)

all-append_left :
    (xs ys : Bytes) → is_truncation_marker (xs ++ ys) ≡ true → is_truncation_marker xs ≡ true
all-append_left [] ys h = refl
all-append_left (x ∷ xs) ys h = ground (arith, all-append_left xs ys)

all-append_right :
    (xs ys : Bytes) → is_truncation_marker (xs ++ ys) ≡ true → is_truncation_marker ys ≡ true
all-append_right [] ys h = h
all-append_right (x ∷ xs) ys h = ground (arith, all-append_right xs ys)

-- No record is taken for a truncation marker, the empty record included.
pub head-not_marker :
    (c : Crc32) (raw : ℕ) (payload : Bytes)
    → raw < 2 ^ 31
    → length payload ≡ raw % 2 ^ 30
    → is_truncation_marker (head c raw payload) ≡ false
head-not_marker c raw payload h l = elim (Bool-cases (is_truncation_marker (head c raw payload))) [
  | inr e ↦ e
  | inl e ↦
      let sum = to_le 4 (c.hash (to_le 4 raw ++ payload)) in
      let z : raw ≡ 0 =
        sym (of_le-to_le 4 raw (omega (arith, h)))
        ∙ of_le-zeros (to_le 4 raw) (all-append_left (to_le 4 raw) sum e) in
      let n : length payload ≡ 0 = omega (arith, z, l) in
      let w : c.hash (to_le 4 raw ++ payload) ≡ 0 =
        sym (of_le-to_le 4 (c.hash (to_le 4 raw ++ payload)) (c.hash-lt (to_le 4 raw ++ payload)))
        ∙ of_le-zeros sum (all-append_right (to_le 4 raw) sum e) in
      absurd (c.hash-zeros (ap c.hash (zeros raw payload z n) ∙ w))
]
  where
    zeros : (r : ℕ) (p : Bytes) → r ≡ 0 → length p ≡ 0 → 0 ∷ 0 ∷ 0 ∷ 0 ∷ [] ≡ to_le 4 r ++ p
    zeros r [] e n = rw e
    zeros r (x ∷ p) e n = absurd (omega arith)

-- What stands behind `pre`, in two reads: the head and then the payload.
pub read_head :
    (c : Crc32) (pre rest : Bytes) (raw : ℕ) (payload : Bytes) (at : ℕ)
    → at ≡ length pre
    → bytes_at (pre ++ (framed c raw payload ++ rest)) at 8 ≡ some (head c raw payload)
read_head c pre rest raw payload at h =
    ap (λ l. bytes_at (pre ++ l) at 8) (append_assoc (head c raw payload) payload rest)
    ∙ bytes_at-behind pre (head c raw payload) (payload ++ rest) at 8 h refl

pub read_payload :
    (c : Crc32) (pre rest : Bytes) (raw : ℕ) (payload : Bytes) (at len : ℕ)
    → at ≡ length pre + 8
    → len ≡ length payload
    → bytes_at (pre ++ (framed c raw payload ++ rest)) at len ≡ some payload
read_payload c pre rest raw payload at len h k =
    ap (λ l. bytes_at l at len)
      (ap (λ l. pre ++ l) (append_assoc (head c raw payload) payload rest)
        ∙ sym (append_assoc pre (head c raw payload) (payload ++ rest)))
    ∙ bytes_at-behind (pre ++ head c raw payload) payload rest at len
        (omega (arith, length-append pre (head c raw payload))) k
