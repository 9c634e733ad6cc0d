-- ===== src/Seglog.antt =====
-- crates/seglog/src/lib.rs: the record format of a segment file. A file is the list of its bytes, as
-- long as its preallocated size; the CRC-32 of the crate crc32fast is a parameter.
pub mod Frame
pub mod Recover
pub mod Write
pub mod Read
use tephra.Prelude.{
  ℕ, ◌+◌, ◌-◌, ◌*◌, ◌/◌, ◌%◌, ◌^◌, ◌<◌, ◌≡◌, ◌≢◌, Bool, true, false, not, List, [], ◌∷◌, ◌++◌,
  length, all, ◌==◌,
}
use tephra.Prelude.Str.{Bytes}
use tephra.Prelude.Le.{to_le}

-- crc32fast: a number of 32 bits for each input, which for four zero bytes is not zero.
pub record Crc32 : Type 0 where
  pub hash : Bytes → ℕ
  pub hash-lt : (bytes : Bytes) → hash bytes < 2 ^ 32
  pub hash-zeros : hash (0 ∷ 0 ∷ 0 ∷ 0 ∷ []) ≢ 0

abbrev pub len_size : ℕ
len_size = 4

abbrev pub record_head_size : ℕ
record_head_size = 8

-- The flag of a control record is bit 30, the length the bits below it; bit 31 is reserved.
abbrev pub control_flag : ℕ
control_flag = 2 ^ 30

abbrev pub length_of : ℕ → ℕ
length_of raw = raw % 2 ^ 30

abbrev pub has_control_flag : ℕ → Bool
has_control_flag raw = raw / 2 ^ 30 % 2 == 1

abbrev pub has_unknown_flags : ℕ → Bool
has_unknown_flags raw = not (raw / 2 ^ 31 == 0)

abbrev pub max_record_len : ℕ
max_record_len = 2 ^ 30 - 1

abbrev pub batch_commit : ℕ
batch_commit = 1

abbrev pub commit_marker_payload : ℕ
commit_marker_payload = 9

-- calculate_crc32c: the hasher takes the three parts one after the other.
abbrev pub calculate_crc32c : Crc32 → Bytes → Bytes → Bytes → ℕ
calculate_crc32c c len_bytes header data_bytes = c.hash (len_bytes ++ (header ++ data_bytes))

-- is_truncation_marker of read.rs
abbrev pub is_truncation_marker : Bytes → Bool
is_truncation_marker header = all (λ b. b == 0) header

-- The bytes that Writer::append writes for one record.
unfoldable pub record_bytes : Crc32 → Bytes → Bytes → Bytes
record_bytes c header data_bytes =
    let length_bytes = to_le 4 ((length header + length data_bytes) % 2 ^ 32) in
    length_bytes
    ++ (to_le 4 (calculate_crc32c c length_bytes header data_bytes) ++ (header ++ data_bytes))

-- The bytes that Writer::write_commit_marker writes.
unfoldable pub marker_bytes : Crc32 → ℕ → Bytes
marker_bytes c highest_position =
    let length_bytes = to_le 4 (commit_marker_payload + control_flag) in
    let payload = batch_commit ∷ to_le 8 highest_position in
    length_bytes ++ (to_le 4 (calculate_crc32c c length_bytes [] payload) ++ payload)
