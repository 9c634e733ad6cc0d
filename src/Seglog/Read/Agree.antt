-- ===== src/Seglog/Read/Agree.antt =====
-- The three readers of crates/seglog (parse_record, and read_record with either hint) agree.
use tephra.Prelude.{
  ℕ, ◌+◌, ◌-◌, ◌≤◌, ◌≡◌, refl, sym, ap, ◌∙◌, some, length, length-take, take, drop, arith, false,
  inl, inr, Bool-cases, ltb, leb, min, ◌&&◌, ◌||◌, if◌then◌else◌, Bool, le→leb, leb→le, &&_right,
  ltb_false→le,
}
use tephra.Prelude.Str.{Bytes}
use tephra.Prelude.Le.{slice, bytes_at, of_le}
use tephra.Prelude.Result.{Result, ok, err}
use tephra.Seglog.{Crc32, record_head_size, length_of, has_unknown_flags, is_truncation_marker}
use tephra.Seglog.Read.{
  Record, ReadError, out_of_bounds, parse_record, random_payload, read_framed, read_record_random,
  ReadAheadBuf, read, read_after_head, read_record_sequential,
}
use tephra.Seglog.Read.Buffer.{Fresh, read-Fresh, take-take, take-drop-take, drop-drop}

-- A record read out of `bytes` up to an end.
abbrev read_slices : Crc32 → ℕ → Bytes → ℕ → ℕ → Result ReadError Record
read_slices c header_size bytes end offset =
    if ltb end (offset + record_head_size)
    then err (out_of_bounds offset record_head_size end)
    else read_framed c header_size end offset (slice bytes offset (offset + record_head_size))
        (λ len. ok (slice bytes (offset + record_head_size) (offset + record_head_size + len)))

parse_record-read_slices :
    (c : Crc32) (header_size : ℕ) (bytes : Bytes) (offset : ℕ)
    → parse_record c header_size bytes offset
      ≡ read_slices c header_size bytes (length bytes) offset
unfolding parse_record read_framed
parse_record-read_slices c header_size bytes offset = refl

-- How the payload is come by matters only within the end.
read_framed-cong :
    (c : Crc32) (header_size end offset : ℕ) (head : Bytes) (p q : ℕ → Result ReadError Bytes)
    → (offset + 8 + length_of (of_le (take 4 head)) ≤ end
        → p (length_of (of_le (take 4 head))) ≡ q (length_of (of_le (take 4 head))))
    → read_framed c header_size end offset head p ≡ read_framed c header_size end offset head q
unfolding read_framed
read_framed-cong c header_size end offset head p q h =
    elim (Bool-cases (ltb end (offset + 8 + length_of (of_le (take 4 head))))) [
      | inl e ↦ rw e refl
      | inr e ↦ rw (h (ltb_false→le _ _ e)) refl
    ]

slice-take :
    (file : Bytes) (end offset len : ℕ)
    → offset + len ≤ end
    → slice (take end file) offset (offset + len) ≡ slice file offset (offset + len)
slice-take file end offset len h =
    take-drop-take (offset + len - offset) offset end file (omega arith)

read_slices-take :
    (c : Crc32) (header_size : ℕ) (file : Bytes) (end offset : ℕ)
    → end ≤ length file
    → read_slices c header_size (take end file) (length (take end file)) offset
      ≡ read_slices c header_size file end offset
read_slices-take c header_size file end offset h =
    ap (λ n. read_slices c header_size (take end file) n offset)
      (let e : length (take end file) ≡ end = omega (arith, length-take end file) in e)
    ∙ elim (Bool-cases (ltb end (offset + 8))) [
      | inl e ↦ rw e refl
      | inr e ↦ rw e (
          ap
            (λ head.
              read_framed c header_size end offset head
                (λ len. ok (slice (take end file) (offset + 8) (offset + 8 + len))))
            (slice-take file end offset 8 (ltb_false→le _ _ e))
          ∙ read_framed-cong c header_size end offset (slice file offset (offset + 8))
              (λ len. ok (slice (take end file) (offset + 8) (offset + 8 + len)))
              (λ len. ok (slice file (offset + 8) (offset + 8 + len)))
              (λ k. ap ok (slice-take file end (offset + 8) _ k)))
    ]

take-slice : (n at : ℕ) (file : Bytes) → take n (drop at file) ≡ slice file at (at + n)
take-slice n at file = ap (λ m. take m (drop at file)) (let e : n ≡ at + n - at = omega arith in e)

bytes_at-slice :
    (file : Bytes) (at n : ℕ)
    → at + n ≤ length file
    → bytes_at file at n ≡ some (slice file at (at + n))
unfolding bytes_at
bytes_at-slice file at n h = rw (le→leb (at + n) (length file) h) (ap some (take-slice n at file))

random_payload-slice :
    (file : Bytes) (offset k n : ℕ)
    → offset + 8 + n ≤ length file
    → random_payload file offset (take k (drop offset file)) n
      ≡ ok (slice file (offset + 8) (offset + 8 + n))
unfolding random_payload
random_payload-slice file offset k n h =
    let opt = take k (drop offset file) in
    let found = bytes_at-slice file (offset + 8) n h in
    elim (Bool-cases (leb n 2048 && leb (8 + n) (length opt))) [
      | inl e ↦
          let within : 8 + n ≤ k = omega (
            arith,
            leb→le (8 + n) (length opt) (&&_right (leb n 2048) (leb (8 + n) (length opt)) e),
            length-take k (drop offset file),
          ) in
          rw e (
            ap ok (
              sym (take-slice n 8 opt)
              ∙ (take-drop-take n 8 k (drop offset file) within
                  ∙ (ap (take n) (drop-drop 8 offset file) ∙ take-slice n (offset + 8) file))))
      | inr e ↦ rw e (elim (Bool-cases (leb n 4096)) [
        | inl q ↦ rw (q, found) refl
        | inr q ↦ rw (q, found) refl
      ])
    ]

random-read_slices :
    (c : Crc32) (header_size : ℕ) (file : Bytes) (end offset : ℕ)
    → end ≤ length file
    → read_record_random c header_size file end offset ≡ read_slices c header_size file end offset
unfolding read_record_random
random-read_slices c header_size file end offset h = elim (Bool-cases (ltb end (offset + 8))) [
  | inl e ↦ rw e refl
  | inr e ↦
      let below = ltb_false→le end (offset + 8) e in
      let k = min (record_head_size + 2048) (end - offset) in
      let opt = bytes_at-slice file offset k (omega arith) in
      let head : take 8 (take k (drop offset file)) ≡ slice file offset (offset + 8) =
        take-take 8 k (drop offset file) (omega arith) ∙ take-slice 8 offset file in
      rw (e, opt)
        (rw (sym (take-slice k offset file)) (
          ap
            (λ hd.
              read_framed c header_size end offset hd
                (random_payload file offset (take k (drop offset file))))
            head
          ∙ read_framed-cong c header_size end offset (slice file offset (offset + 8))
              (random_payload file offset (take k (drop offset file)))
              (λ len. ok (slice file (offset + 8) (offset + 8 + len)))
              (λ q. random_payload-slice file offset k _ (omega (arith, q)))))
]

after_head-read_framed :
    (c : Crc32) (header_size : ℕ) (b : ReadAheadBuf) (file : Bytes) (end offset : ℕ) (head : Bytes)
    → end ≤ length file
    → Fresh b file
    → ((read_after_head c header_size b file end offset head).1
        ≡ read_framed c header_size end offset head
            (λ len. ok (slice file (offset + 8) (offset + 8 + len))))
      × Fresh (read_after_head c header_size b file end offset head).0 file
unfolding read_after_head
after_head-read_framed c header_size b file end offset head h fresh =
    let raw = of_le (take 4 head) in
    let got = read-Fresh b file (offset + 8) (length_of raw) fresh in
    let late = ltb end (offset + 8 + length_of raw) in
    (
      read_framed-cong c header_size end offset head
          (λ len. (read b file (offset + 8) (length_of raw)).1)
          (λ len. ok (slice file (offset + 8) (offset + 8 + len)))
          (λ q. (got (omega (arith, q))).0),
      elim (Bool-cases (is_truncation_marker head || (has_unknown_flags raw || late))) [
        | inl e ↦ rw e fresh
        | inr e ↦
            rw e
              (got (
                omega (
                  arith,
                  ltb_false→le end (offset + 8 + length_of raw) (
                      ||_right (has_unknown_flags raw) late
                        (||_right (is_truncation_marker head) (has_unknown_flags raw || late) e)),
                ))).1
      ],
    )
  where
    ||_right : (a b : Bool) → (a || b) ≡ false → b ≡ false
    ||_right a b h = ground arith

sequential-read_slices :
    (c : Crc32) (header_size : ℕ) (b : ReadAheadBuf) (file : Bytes) (end offset : ℕ)
    → end ≤ length file
    → Fresh b file
    → ((read_record_sequential c header_size b file end offset).1
        ≡ read_slices c header_size file end offset)
      × Fresh (read_record_sequential c header_size b file end offset).0 file
unfolding read_record_sequential
sequential-read_slices c header_size b file end offset h fresh =
    elim (Bool-cases (ltb end (offset + 8))) [
      | inl e ↦ rw e (refl, fresh)
      | inr e ↦
          let got =
            read-Fresh b file offset 8 fresh (omega (arith, ltb_false→le end (offset + 8) e)) in
          rw (e, got.0)
            (after_head-read_framed c header_size (read b file offset 8).0 file end offset
              (slice file offset (offset + 8)) h got.1)
    ]

-- For every place in a file whose first bytes are flushed: a random read, a sequential read through a
-- buffer that holds what the file holds, and the parse of the flushed bytes give the same record or
-- the same error, and the buffer still holds what the file holds.
pub readers_agree :
    (c : Crc32) (header_size : ℕ) (file : Bytes) (flushed_offset offset : ℕ) (b : ReadAheadBuf)
    → flushed_offset ≤ length file
    → Fresh b file
    → (read_record_random c header_size file flushed_offset offset
        ≡ parse_record c header_size (take flushed_offset file) offset)
      × ((read_record_sequential c header_size b file flushed_offset offset).1
          ≡ parse_record c header_size (take flushed_offset file) offset)
      × Fresh (read_record_sequential c header_size b file flushed_offset offset).0 file
readers_agree c header_size file flushed_offset offset b h fresh =
    let parsed : parse_record c header_size (take flushed_offset file) offset
        ≡ read_slices c header_size file flushed_offset offset =
      parse_record-read_slices c header_size (take flushed_offset file) offset
      ∙ read_slices-take c header_size file flushed_offset offset h in
    let s = sequential-read_slices c header_size b file flushed_offset offset h fresh in
    (
      random-read_slices c header_size file flushed_offset offset h ∙ sym parsed,
      s.0 ∙ sym parsed,
      s.1,
    )
