-- ===== src/Seglog/Recover/Framed.antt =====
-- What valid_record of crates/seglog/src/write.rs finds where a framed payload stands.
use tephra.Prelude.{
  ℕ, ◌+◌, ◌%◌, false, ◌^◌, ◌≤◌, ◌<◌, ◌≡◌, refl, Option, some, ◌++◌, length, take, arith,
  le→ltb_false, ==_iff,
}
use tephra.Prelude.Str.{Bytes}
use tephra.Prelude.Le.{to_le, of_le, slice, bytes_at}
use tephra.Seglog.{Crc32, length_of, has_control_flag, is_truncation_marker}
use tephra.Seglog.Frame.{head, framed, head-raw, head-crc, head-not_marker, read_head, read_payload}
use tephra.Seglog.Recover.{Valid, check_payload, check_head, valid_record}

abbrev pub of_frame : ℕ → ℕ → Bytes → Valid
of_frame raw at payload = record {
  is_control = has_control_flag raw;
  payload = payload;
  record_end = at + 8 + length_of raw;
}

check_payload-found :
    (c : Crc32) (file : Bytes) (at raw crc : ℕ) (payload : Bytes)
    → bytes_at file at (length_of raw) ≡ some payload
    → c.hash (to_le 4 raw ++ payload) ≡ crc
    → check_payload c file at raw crc
      ≡ some (record {
        is_control = has_control_flag raw;
        payload = payload;
        record_end = at + length_of raw;
      })
unfolding check_payload
check_payload-found c file at raw crc payload h e =
    rw (h, check_payload) (rw ((==_iff (c.hash (to_le 4 raw ++ payload)) crc).1 e))

check_head-found :
    (c : Crc32) (file : Bytes) (size at : ℕ) (head : Bytes) (raw crc : ℕ) (o : Option Valid)
    → is_truncation_marker head ≡ false
    → of_le (take 4 head) ≡ raw
    → of_le (slice head 4 8) ≡ crc
    → raw < 2 ^ 31
    → at + length_of raw ≤ size
    → check_payload c file at raw crc ≡ o
    → check_head c file size at head ≡ o
unfolding check_head
check_head-found c file size at head raw crc o m e k r s h = rw (m, e) (ground (arith, h, k))

valid_record-found :
    (c : Crc32) (file : Bytes) (size at : ℕ) (head : Bytes) (o : Option Valid)
    → at + 8 ≤ size
    → bytes_at file at 8 ≡ some head
    → check_head c file size (at + 8) head ≡ o
    → valid_record c file size at ≡ o
unfolding valid_record
valid_record-found c file size at head o s h e = rw (le→ltb_false size (at + 8) s, h) e

-- A framed payload is validated where it stands.
pub valid_record-framed :
    (c : Crc32) (pre rest : Bytes) (raw : ℕ) (payload : Bytes) (size at : ℕ)
    → at ≡ length pre
    → raw < 2 ^ 31
    → length payload ≡ raw % 2 ^ 30
    → at + 8 + length payload ≤ size
    → valid_record c (pre ++ (framed c raw payload ++ rest)) size at
      ≡ some (of_frame raw at payload)
valid_record-framed c pre rest raw payload size at h r l s =
    valid_record-found c (pre ++ (framed c raw payload ++ rest)) size at (head c raw payload)
      (some (of_frame raw at payload)) (omega arith) (read_head c pre rest raw payload at h)
      (check_head-found c (pre ++ (framed c raw payload ++ rest)) size (at + 8) (head c raw payload)
        raw (c.hash (to_le 4 raw ++ payload)) (some (of_frame raw at payload))
        (head-not_marker c raw payload r l) (head-raw c raw payload (omega arith))
        (head-crc c raw payload) r (omega arith)
        (check_payload-found c (pre ++ (framed c raw payload ++ rest)) (at + 8) raw
          (c.hash (to_le 4 raw ++ payload)) payload
          (read_payload c pre rest raw payload (at + 8) (length_of raw) (omega arith) (omega arith))
          refl))
