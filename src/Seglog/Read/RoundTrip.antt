-- ===== src/Seglog/Read/RoundTrip.antt =====
-- What Writer::append writes reads back: parse_record of crates/seglog/src/parse.rs.
use tephra.Prelude.{
  ℕ, ◌+◌, ◌/◌, ◌%◌, ◌^◌, ◌≤◌, ◌<◌, ◌≡◌, refl, sym, ap, ◌∙◌, ◌++◌, append_assoc, length,
  length-append, take, arith, false, ◌==◌, ==_iff, le→ltb_false, drop-append_length,
  take-append_length,
}
use tephra.Prelude.Str.{Bytes}
use tephra.Prelude.Le.{to_le, of_le, slice}
use tephra.Prelude.Result.{Result, ok}
use tephra.Event.Layout.{slice-append}
use tephra.Seglog.{Crc32, record_bytes, length_of, max_record_len, is_truncation_marker}
use tephra.Seglog.Frame.{head, record_bytes-framed, head-raw, head-crc, head-not_marker}
use tephra.Seglog.Recover.Committed.{length-record_bytes}
use tephra.Seglog.Read.{Record, ReadError, checked, parse_record}

checked_sound :
    (c : Crc32) (offset raw : ℕ) (header body : Bytes)
    → raw < 2 ^ 30
    → checked c
        (length header)
        offset
        raw
        (c.hash (to_le 4 raw ++ (header ++ body)))
        (header ++ body)
      ≡ ok (record {
        header = header;
        body = body;
        offset = offset;
        len = 8 + length (header ++ body);
      })
unfolding checked
checked_sound c offset raw header body h =
    rw
      (
        (==_iff_false (raw / 2 ^ 30 % 2) 1 (omega arith)),
        le→ltb_false (length (header ++ body)) (length header)
            (omega (arith, length-append header body)),
        take-append_length header body,
        drop-append_length header body,
        (==_iff (c.hash (to_le 4 raw ++ (header ++ body)))
              (c.hash (to_le 4 raw ++ (header ++ body)))).1
            refl,
      )
      refl
  where
    ==_iff_false : (a b : ℕ) → a < b → (a == b) ≡ false
    ==_iff_false a b h = ground arith

parse_record-found :
    (c : Crc32) (header_size : ℕ) (bytes : Bytes) (offset raw crc : ℕ) (hd payload : Bytes)
    (o : Result ReadError Record)
    → slice bytes offset (offset + 8) ≡ hd
    → is_truncation_marker hd ≡ false
    → of_le (take 4 hd) ≡ raw
    → of_le (slice hd 4 8) ≡ crc
    → raw < 2 ^ 30
    → offset + 8 + raw ≤ length bytes
    → slice bytes (offset + 8) (offset + 8 + length_of raw) ≡ payload
    → checked c header_size offset raw crc payload ≡ o
    → parse_record c header_size bytes offset ≡ o
unfolding parse_record
parse_record-found c header_size bytes offset raw crc hd payload o s m r k small fits p e =
    rw (s, m, r, k, p)
      (rw
        (
          le→ltb_false (length bytes) (offset + 8) (omega arith),
          le→ltb_false (length bytes) (offset + 8 + length_of raw) (omega arith),
          (==_iff (raw / 2 ^ 31) 0).1 (omega arith),
        )
        e)

-- A record that was appended with a header of the segment's size reads back where it was written,
-- whatever stands before and behind it.
pub parse_record-record_bytes :
    (c : Crc32) (pre rest header body : Bytes)
    → length header + length body ≤ max_record_len
    → parse_record c (length header) (pre ++ (record_bytes c header body ++ rest)) (length pre)
      ≡ ok (record {
        header = header;
        body = body;
        offset = length pre;
        len = length (record_bytes c header body);
      })
parse_record-record_bytes c pre rest header body small =
    let payload = header ++ body in
    let len = length-append header body in
    let raw = (length header + length body) % 2 ^ 32 in
    let below : raw < 2 ^ 30 = omega arith in
    let same : length payload ≡ raw = omega (arith, len) in
    let hd = head c raw payload in
    let file = pre ++ (record_bytes c header body ++ rest) in
    let framed_file : file ≡ pre ++ (hd ++ (payload ++ rest)) =
      ap (λ l. pre ++ (l ++ rest)) (record_bytes-framed c header body)
      ∙ ap (λ l. pre ++ l) (append_assoc hd payload rest) in
    let shifted : file ≡ (pre ++ hd) ++ (payload ++ rest) =
      framed_file ∙ sym (append_assoc pre hd (payload ++ rest)) in
    parse_record-found c (length header) file (length pre) raw (c.hash (to_le 4 raw ++ payload)) hd
      payload
      (ok (record {
        header = header;
        body = body;
        offset = length pre;
        len = length (record_bytes c header body);
      }))
      (ap (λ l. slice l (length pre) (length pre + 8)) framed_file
        ∙ slice-append pre hd (payload ++ rest) (length pre) (length pre + 8) refl refl)
      (head-not_marker c raw payload (omega arith) (omega (arith, same)))
      (head-raw c raw payload (omega arith)) (head-crc c raw payload) below
      (omega (
        arith,
        ap length shifted,
        length-append (pre ++ hd) (payload ++ rest),
        length-append pre hd,
        length-append payload rest,
      ))
      (ap (λ l. slice l (length pre + 8) (length pre + 8 + length_of raw)) shifted
        ∙ slice-append (pre ++ hd) payload rest (length pre + 8) (length pre + 8 + length_of raw)
            (omega (arith, length-append pre hd)) (omega (arith, same)))
      (checked_sound c (length pre) raw header body below
        ∙ ap (λ (n : ℕ). ok (record { header = header; body = body; offset = length pre; len = n }))
            (let e : 8 + length payload ≡ length (record_bytes c header body) =
                omega (arith, len, length-record_bytes c header body) in
              e))
