-- ===== src/Seglog/Read.antt =====
-- crates/seglog/src/read.rs and parse.rs: the readers of a segment file. A file is its bytes, as they
-- are during a call; a read of it fails where it does not reach so far.
pub mod Buffer
pub mod Agree
pub mod RoundTrip
use tephra.Prelude.{
  ℕ, zero, suc, ◌+◌, ◌-◌, ◌%◌, ◌/◌, ◌*◌, ◌≡◌, Bool, true, false, not, List, [], ◌∷◌, ◌++◌, Option,
  none, some, if◌then◌else◌, ltb, leb, ◌==◌, ◌&&◌, ◌||◌, length, take, drop, min, max,
}
use tephra.Prelude.Str.{Bytes}
use tephra.Prelude.Le.{to_le, of_le, slice, bytes_at}
use tephra.Prelude.Result.{Result, ok, err, ◌>>=◌, ok_or}
use tephra.Seglog.{
  Crc32, len_size, record_head_size, length_of, has_control_flag, has_unknown_flags,
  is_truncation_marker, calculate_crc32c,
}

-- ReadError; `panic` is the slice of a payload that is shorter than the header that it should hold.
pub data ReadError : Type 0 where
  crc32c_mismatch : ℕ → ReadError
  out_of_bounds : ℕ → ℕ → ℕ → ReadError
  truncation_marker : ℕ → ReadError
  control_record : ℕ → ℕ → ReadError
  corrupt : ℕ → ReadError
  io panic : ReadError

-- ReadHint
pub data ReadHint : Type 0 where
  random sequential : ReadHint

pub record Record : Type 0 where
  pub header : Bytes
  pub body : Bytes
  pub offset : ℕ
  pub len : ℕ

-- The checksum of a record over `header_len` bytes of header and the rest, then its kind.
unfoldable pub checked : Crc32 → ℕ → ℕ → ℕ → ℕ → Bytes → Result ReadError Record
checked c header_size offset raw crc payload =
    let header_len = if has_control_flag raw then 0 else header_size in
    let header = take header_len payload in
    let body = drop header_len payload in
    if ltb (length payload) header_len
    then err panic
    else if not (calculate_crc32c c (to_le 4 raw) header body == crc)
    then err (crc32c_mismatch offset)
    else if has_control_flag raw
    then err (control_record offset (record_head_size + length payload))
    else ok (record {
      header = header;
      body = body;
      offset = offset;
      len = record_head_size + length payload;
    })

-- parse_record_parts, and parse_record on what it gives. The payload of a control record is checked
-- as a whole.
unfoldable pub parse_record : Crc32 → ℕ → Bytes → ℕ → Result ReadError Record
unfolding checked
parse_record c header_size bytes offset =
    let head = slice bytes offset (offset + record_head_size) in
    let raw = of_le (take len_size head) in
    let payload_len = length_of raw in
    let payload_offset = offset + record_head_size in
    if ltb (length bytes) (offset + record_head_size)
    then err (out_of_bounds offset record_head_size (length bytes))
    else if is_truncation_marker head
    then err (truncation_marker offset)
    else if has_unknown_flags raw
    then err (corrupt offset)
    else if ltb (length bytes) (payload_offset + payload_len)
    then err (out_of_bounds offset (record_head_size + payload_len) (length bytes))
    else checked c header_size offset raw (of_le (slice head len_size record_head_size))
        (slice bytes payload_offset (payload_offset + payload_len))

abbrev pub optimistic_data_size : ℕ
optimistic_data_size = 2048

abbrev pub fallback_buf_size : ℕ
fallback_buf_size = 4096

-- How read_record with ReadHint::Random comes by the payload: out of the optimistic read, or by a read
-- of its own into one of two buffers.
unfoldable pub random_payload : Bytes → ℕ → Bytes → ℕ → Result ReadError Bytes
random_payload file offset optimistic payload_len =
    if leb payload_len optimistic_data_size
      && leb (record_head_size + payload_len) (length optimistic)
    then ok (slice optimistic record_head_size (record_head_size + payload_len))
    else if leb payload_len fallback_buf_size
    then ok_or (bytes_at file (offset + record_head_size) payload_len) io
    else ok_or (bytes_at file (offset + record_head_size) payload_len) io

-- What both readers do with a head, given how they come by the payload.
unfoldable pub read_framed :
    Crc32 → ℕ → ℕ → ℕ → Bytes → (ℕ → Result ReadError Bytes) → Result ReadError Record
unfolding checked
read_framed c header_size flushed_offset offset head payload_of =
    let raw = of_le (take len_size head) in
    let payload_len = length_of raw in
    if is_truncation_marker head
    then err (truncation_marker offset)
    else if has_unknown_flags raw
    then err (corrupt offset)
    else if ltb flushed_offset (offset + record_head_size + payload_len)
    then err (out_of_bounds offset (record_head_size + payload_len) flushed_offset)
    else payload_of payload_len
      >>= checked c header_size offset raw (of_le (slice head len_size record_head_size))

-- Reader::read_record with ReadHint::Random
unfoldable pub read_record_random : Crc32 → ℕ → Bytes → ℕ → ℕ → Result ReadError Record
unfolding random_payload read_framed
read_record_random c header_size file flushed_offset offset =
    let optimistic_read_len =
      min (record_head_size + optimistic_data_size) (flushed_offset - offset) in
    if ltb flushed_offset (offset + record_head_size)
    then err (out_of_bounds offset record_head_size flushed_offset)
    else ok_or (bytes_at file offset optimistic_read_len) io >>= λ optimistic.
        read_framed c header_size flushed_offset offset (take record_head_size optimistic)
          (random_payload file offset optimistic)

-- ReadAheadBuf, the valid part of its buffer
pub record ReadAheadBuf : Type 0 where
  pub buf : Bytes
  pub offset : ℕ

abbrev pub empty_buf : ReadAheadBuf
empty_buf = record { buf = []; offset = 0 }

abbrev pub read_ahead_size : ℕ
read_ahead_size = 65536

abbrev pub page_size : ℕ
page_size = 4096

-- ReadAheadBuf::fill, of what the file holds now; reading goes on up to the required size or the end
-- of the file.
unfoldable pub fill : Bytes → ℕ → ℕ → ReadAheadBuf
fill file offset len =
    let start = offset - offset % read_ahead_size in
    let required_size =
      (max (offset + len - start) read_ahead_size + page_size - 1) / page_size * page_size in
    record { buf = take required_size (drop start file); offset = start }

abbrev pub covers : ReadAheadBuf → ℕ → ℕ → Bool
covers b offset len = leb b.offset offset && leb (offset + len) (b.offset + length b.buf)

abbrev pub bytes_of : ReadAheadBuf → ℕ → ℕ → Bytes
bytes_of b offset len = slice b.buf (offset - b.offset) (offset - b.offset + len)

-- ReadAheadBuf::read
unfoldable pub read : ReadAheadBuf → Bytes → ℕ → ℕ → ReadAheadBuf × Result ReadError Bytes
unfolding fill
read b file offset len =
    let filled = fill file offset len in
    if covers b offset len
    then (b, ok (bytes_of b offset len))
    else (filled, if covers filled offset len then ok (bytes_of filled offset len) else err io)

-- read_record_sequential, from the head on: the payload is read only where the head is in order.
unfoldable pub read_after_head :
    Crc32 → ℕ → ReadAheadBuf → Bytes → ℕ → ℕ → Bytes → ReadAheadBuf × Result ReadError Record
unfolding read read_framed
read_after_head c header_size b file flushed_offset offset head =
    let raw = of_le (take len_size head) in
    let (b', payload) = read b file (offset + record_head_size) (length_of raw) in
    let refused =
      is_truncation_marker head
      || (has_unknown_flags raw
          || ltb flushed_offset (offset + record_head_size + length_of raw)) in
    (
      if refused then b else b',
      read_framed c header_size flushed_offset offset head (λ len. payload),
    )

-- Reader::read_record with ReadHint::Sequential
unfoldable pub read_record_sequential :
    Crc32 → ℕ → ReadAheadBuf → Bytes → ℕ → ℕ → ReadAheadBuf × Result ReadError Record
unfolding read_after_head
read_record_sequential c header_size b file flushed_offset offset =
    let (b', head) = read b file offset record_head_size in
    if ltb flushed_offset (offset + record_head_size)
    then (b, err (out_of_bounds offset record_head_size flushed_offset))
    else elim head [
      | err e ↦ (b', err e)
      | ok h ↦ read_after_head c header_size b' file flushed_offset offset h
    ]

pub data RecordKind : Type 0 where
  data_record control : ℕ → RecordKind
  end : RecordKind

-- Reader::peek
unfoldable pub peek : ReadAheadBuf → Bytes → ℕ → ℕ → ReadAheadBuf × Result ReadError RecordKind
unfolding read
peek b file flushed_offset offset =
    let (b', head) = read b file offset record_head_size in
    if ltb flushed_offset (offset + record_head_size) then (b, ok end) else (
      b',
      head >>= λ h.
          let raw = of_le (take len_size h) in
          let total_len = record_head_size + length_of raw in
          if is_truncation_marker h
          then ok end
          else if has_unknown_flags raw
          then err (corrupt offset)
          else if ltb flushed_offset (offset + total_len)
          then ok end
          else if has_control_flag raw
          then ok (control total_len)
          else ok (data_record total_len),
    )

-- Reader::control_len_at
unfoldable pub control_payload_len :
    Crc32 → ReadAheadBuf → Bytes → ℕ → ℕ → Bytes → ReadAheadBuf × Option ℕ
unfolding read
control_payload_len c b file flushed_offset offset h =
    let raw = of_le (take len_size h) in
    let crc = of_le (slice h len_size record_head_size) in
    let (b', payload) = read b file (offset + record_head_size) (length_of raw) in
    if is_truncation_marker h
    then (b, none)
    else if not (has_control_flag raw) || has_unknown_flags raw
    then (b, none)
    else if ltb flushed_offset (offset + (record_head_size + length_of raw))
    then (b, none)
    else (
      b',
      elim payload [
        | err e ↦ none
        | ok p ↦
            if calculate_crc32c c (to_le 4 raw) [] p == crc
            then some (record_head_size + length_of raw)
            else none
      ],
    )

unfoldable pub control_len_at : Crc32 → ReadAheadBuf → Bytes → ℕ → ℕ → ReadAheadBuf × Option ℕ
unfolding control_payload_len
control_len_at c b file flushed_offset offset =
    let (b', head) = read b file offset record_head_size in
    if ltb flushed_offset (offset + record_head_size) then (b, none) else elim head [
      | err e ↦ (b', none)
      | ok h ↦ control_payload_len c b' file flushed_offset offset h
    ]
