-- ===== src/Log/Header.antt =====
-- crates/tephra/src/log/header.rs: the header of a segment file, 64 bytes with a checksum.
use tephra.Prelude.{
  ℕ, ◌^◌, ◌<◌, ◌≡◌, refl, not, [], ◌∷◌, ◌++◌, if◌then◌else◌, ltb, ◌==◌, ==_iff, length, take, drop,
  all, replicate, arith, le→ltb_false,
}
use tephra.Prelude.Str.{Bytes}
use tephra.Prelude.Le.{to_le, of_le, of_le-to_le, slice}
use tephra.Prelude.Result.{Result, ok, err}
use tephra.Types.Position.{Position}
use tephra.Seglog.{Crc32}

abbrev pub segment_header_size : ℕ
segment_header_size = 64

-- The offsets of the fields.
abbrev off_version : ℕ
off_version = 4

abbrev off_created_at : ℕ
off_created_at = 6

abbrev off_base_position : ℕ
off_base_position = 14

abbrev off_padding : ℕ
off_padding = 22

abbrev off_crc : ℕ
off_crc = 60

pub record SegmentHeader : Type 0 where
  pub version : ℕ
  pub created_at_nanos : ℕ
  pub base_position : Position

-- `u32::from_le_bytes(*b"EVTS")`
abbrev pub magic_bytes : ℕ
magic_bytes = of_le (b'E' ∷ b'V' ∷ b'T' ∷ b'S' ∷ [])

abbrev pub supported_version : ℕ
supported_version = 0

pub data HeaderError : Type 0 where
  unwritten : HeaderError
  bad_magic : ℕ → ℕ → HeaderError
  unsupported_version : ℕ → ℕ → HeaderError
  checksum_mismatch : ℕ → ℕ → HeaderError
  dirty_padding : HeaderError

-- The header up to the checksum: the fields in the order of their offsets, then zeros.
abbrev pub fields : SegmentHeader → Bytes
fields h =
    to_le 4 magic_bytes
    ++ (to_le 2 h.version
        ++ (to_le 8 h.created_at_nanos ++ (to_le 8 h.base_position ++ replicate 38 0)))

-- SegmentHeader::to_bytes
unfoldable pub to_bytes : Crc32 → SegmentHeader → Bytes
to_bytes c h = fields h ++ to_le 4 (c.hash (fields h))

-- SegmentHeader::from_bytes, of 64 bytes
unfoldable pub from_bytes : Crc32 → Bytes → Result HeaderError SegmentHeader
from_bytes c buf =
    let expected = of_le (drop off_crc buf) in
    let computed = c.hash (take off_crc buf) in
    let magic = of_le (slice buf 0 off_version) in
    let version = of_le (slice buf off_version off_created_at) in
    if all (λ b. b == 0) buf
    then err unwritten
    else if not (expected == computed)
    then err (checksum_mismatch expected computed)
    else if not (magic == magic_bytes)
    then err (bad_magic magic_bytes magic)
    else if ltb supported_version version
    then err (unsupported_version version supported_version)
    else if not (all (λ b. b == 0) (slice buf off_padding off_crc))
    then err dirty_padding
    else ok (record {
      version = version;
      created_at_nanos = of_le (slice buf off_created_at off_base_position);
      base_position = of_le (slice buf off_base_position off_padding);
    })

-- A header of this version with u64 fields is 64 bytes long on disk and reads back as itself.
pub from_bytes-to_bytes :
    (c : Crc32) (h : SegmentHeader)
    → h.version ≡ supported_version
    → h.created_at_nanos < 2 ^ 64
    → h.base_position < 2 ^ 64
    → (length (to_bytes c h) ≡ segment_header_size) × (from_bytes c (to_bytes c h) ≡ ok h)
unfolding to_bytes from_bytes
from_bytes-to_bytes c h v a b =
    let crc = of_le-to_le 4 (c.hash (fields h)) (c.hash-lt (fields h)) in
    (
      refl,
      rw
          (
            crc,
            (==_iff (c.hash (fields h)) (c.hash (fields h))).1 refl,
            of_le-to_le 2 h.version (omega arith),
            le→ltb_false supported_version h.version (omega arith),
            of_le-to_le 8 h.created_at_nanos (omega arith),
            of_le-to_le 8 h.base_position (omega arith),
          )
          refl,
    )
