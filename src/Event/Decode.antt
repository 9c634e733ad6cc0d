-- ===== src/Event/Decode.antt =====
-- EventRef::from_bytes of crates/tephra/src/event.rs: decoding with every check.
use tephra.Prelude.{
  ℕ, zero, suc, ◌+◌, ◌*◌, Bool, false, Option, none, some, if◌then◌else◌, ltb, ◌==◌, length, not,
  ◌||◌,
}
use tephra.Prelude.Str.{Str, Bytes, str_lt, str_eq}
use tephra.Prelude.Result.{Result, ok, err, ◌>>=◌, ◌>>◌, ok_or}
use tephra.Types.Position.{u32_max, u64_mod}
use tephra.Event.{EventRef, fixed_header, header_len, read_u16, slice}
use tephra.Event.Utf8.{is_utf8}

pub data DecodeError : Type 0 where
  truncated too_large empty_type empty_tag invalid_utf8 tags_not_sorted : DecodeError

-- usize::checked_add, on a 64-bit target
abbrev pub checked_add : ℕ → ℕ → Option ℕ
checked_add a b = if ltb (a + b) u64_mod then some (a + b) else none

abbrev pub guard : Bool → DecodeError → Result DecodeError (Unit {0})
guard b e = if b then ok tt else err e

-- The first loop: the sum of `n` tag lengths from the `i`th on.
unfoldable pub sum_tag_lens : Bytes → ℕ → ℕ → ℕ → Result DecodeError ℕ
unfolding read_u16
sum_tag_lens buf zero i total = ok total
sum_tag_lens buf (suc n) i total = do
  let len = read_u16 buf (fixed_header + 2 * i)
  guard (not (len == 0)) empty_tag
  total' ← ok_or (checked_add total len) too_large
  sum_tag_lens buf n (i + 1) total'

-- `tag <= p` for the tag before, if there is one
abbrev pub not_above : Option Str → Str → Bool
not_above none tag = false
not_above (some p) tag = str_lt tag p || str_eq tag p

-- The second loop: `n` tags from the `i`th on, at `pos`, after `prev`.
unfoldable pub check_tags : Bytes → ℕ → ℕ → ℕ → Option Str → Result DecodeError (Unit {0})
unfolding read_u16 is_utf8 str_lt str_eq
check_tags buf zero i pos prev = ok tt
check_tags buf (suc n) i pos prev = do
  let end = pos + read_u16 buf (fixed_header + 2 * i)
  let tag = slice buf pos end
  guard (is_utf8 tag) invalid_utf8
  guard (not (not_above prev tag)) tags_not_sorted
  check_tags buf n (i + 1) end (some tag)

-- EventRef::from_bytes
unfoldable pub from_bytes : Bytes → Result DecodeError EventRef
unfolding sum_tag_lens check_tags
from_bytes buf = do
  guard (not (ltb (length buf) fixed_header)) truncated
  let type_len = read_u16 buf 0
  let tag_count = read_u16 buf 2
  let hlen = header_len tag_count
  guard (not (ltb (length buf) hlen)) truncated
  guard (not (type_len == 0)) empty_type
  tags_total ← sum_tag_lens buf tag_count 0 0
  before_tags ← ok_or (checked_add hlen type_len) too_large
  data_start ← ok_or (checked_add before_tags tags_total) too_large
  guard (not (ltb (length buf) data_start)) truncated
  guard (not (ltb u32_max data_start)) too_large
  let type_end = hlen + type_len
  guard (is_utf8 (slice buf hlen type_end)) invalid_utf8
  check_tags buf tag_count 0 type_end none
  ok (record { buf = buf; data_offset = data_start })
