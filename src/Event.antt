-- ===== src/Event.antt =====
-- crates/tephra/src/event.rs: the event codec. An event is one buffer, a header of little-endian u16
-- lengths before the type, the tags in order and the payload. A byte is a number below 256.
pub mod Utf8
pub mod Decode
pub mod Layout
pub mod Checks
pub mod RoundTrip
pub mod Sound
use tephra.Prelude.{
  ℕ, zero, suc, ◌+◌, ◌-◌, ◌*◌, ◌/◌, ◌%◌, ◌≡◌, Bool, true, false, List, [], ◌∷◌, ◌++◌, Option, none,
  some, if◌then◌else◌, ltb, ◌==◌, length, get_or, take, drop, min,
}
use tephra.Prelude.Str.{Str, Bytes, str_lt, str_cmp}
use tephra.Prelude.Result.{Result, ok, err, ◌>>=◌, ◌>>◌}
use tephra.Types.Position.{u16_max, u32_max}
use tephra.Types.Name.{EventType}
use tephra.Types.Tags.{Tags}

abbrev pub fixed_header : ℕ
fixed_header = 4

abbrev pub header_len : ℕ → ℕ
header_len tag_count = fixed_header + 2 * tag_count

pub data EncodeError : Type 0 where
  too_many_tags : ℕ → ℕ → EncodeError
  too_large : ℕ → ℕ → EncodeError

-- An owned event: its buffer and the cached offset of its payload.
pub record Event : Type 0 where
  pub buf : Bytes
  pub data_offset : ℕ

-- u16::to_le_bytes, of the value as a u16
abbrev pub to_le16 : ℕ → Bytes
to_le16 n = n % 256 ∷ n / 256 % 256 ∷ []

-- The length header, one u16 for each tag.
unfoldable pub tag_lens : Tags → Bytes
tag_lens [] = []
tag_lens (t ∷ ts) = to_le16 (length t) ++ tag_lens ts

-- The tags' bytes, one after the other.
unfoldable pub tag_bytes : Tags → Bytes
tag_bytes [] = []
tag_bytes (t ∷ ts) = t ++ tag_bytes ts

unfoldable pub tags_total : Tags → ℕ
tags_total [] = 0
tags_total (t ∷ ts) = length t + tags_total ts

-- Event::new
unfoldable pub new : EventType → Tags → Bytes → Result EncodeError Event
unfolding tag_lens tag_bytes tags_total
new ty tags payload =
    let tag_count = length tags in
    let data_start = header_len tag_count + length ty + tags_total tags in
    if ltb u16_max tag_count
    then err (too_many_tags tag_count u16_max)
    else if ltb u32_max data_start
    then err (too_large data_start u32_max)
    else ok (record {
      buf =
          to_le16 (length ty)
          ++ (to_le16 tag_count ++ (tag_lens tags ++ (ty ++ (tag_bytes tags ++ payload))));
      data_offset = data_start;
    })

-- A borrowed event: the same buffer and offset.
pub record EventRef : Type 0 where
  pub buf : Bytes
  pub data_offset : ℕ

abbrev pub as_ref : Event → EventRef
as_ref e = record { buf = e.buf; data_offset = e.data_offset }

-- Event::as_bytes
abbrev pub as_bytes : Event → Bytes
as_bytes e = e.buf

-- The u16 at `at`; callers pass a position inside the buffer.
unfoldable pub read_u16 : Bytes → ℕ → ℕ
read_u16 buf at = get_or buf at 0 + 256 * get_or buf (at + 1) 0

-- buf[from..to]
abbrev pub slice : Bytes → ℕ → ℕ → Bytes
slice buf from to = take (to - from) (drop from buf)

-- decode_type, EventRef::event_type
unfoldable pub event_type : EventRef → Str
unfolding read_u16
event_type e =
    let type_len = read_u16 e.buf 0 in
    let start = header_len (read_u16 e.buf 2) in slice e.buf start (start + type_len)

-- The iterator over an event's tags.
pub record TagsRef : Type 0 where
  pub data_bytes : Bytes
  pub lens : Bytes
  pub idx : ℕ

-- decode_tags
unfoldable pub decode_tags : Bytes → TagsRef
unfolding read_u16
decode_tags buf =
    let type_len = read_u16 buf 0 in
    let tag_count = read_u16 buf 2 in
    let start = header_len tag_count + type_len in
    record {
      data_bytes = drop start buf;
      lens = slice buf fixed_header (fixed_header + 2 * tag_count);
      idx = 0;
    }

-- Iterator::next for TagsRef
unfoldable pub next_tag : TagsRef → Option (Str × TagsRef)
unfolding read_u16
next_tag r =
    let off = r.idx * 2 in
    let len = read_u16 r.lens off in
    if ltb (length r.lens) (off + 2)
    then none
    else some (
      take len r.data_bytes,
      record { data_bytes = drop len r.data_bytes; lens = r.lens; idx = r.idx + 1 },
    )

-- What is left of the iterator, for at most `fuel` calls of `next`.
unfoldable pub collect_tags : ℕ → TagsRef → List Str
unfolding next_tag
collect_tags zero r = []
collect_tags (suc fuel) r = elim (next_tag r) [
  | none ↦ []
  | some (t, r') ↦ t ∷ collect_tags fuel r'
]

-- EventRef::tags, run to its end: `next` is answered at most once for each two bytes of `lens`.
unfoldable pub tags : EventRef → List Str
unfolding decode_tags collect_tags
tags e = let r = decode_tags e.buf in collect_tags (length r.lens / 2) r

-- EventRef::data
abbrev pub payload : EventRef → Bytes
payload e = drop e.data_offset e.buf
