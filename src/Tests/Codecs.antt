-- ===== src/Tests/Codecs.antt =====
-- Tests of the encodings: postings, segment headers, frames and wire messages.
use tephra.Prelude.{◌≡◌, ◌≤◌, refl, sym, List, [], ◌∷◌, ◌++◌, some, length, arith}
use tephra.Prelude.Str.{Bytes}
use tephra.Prelude.Result.{ok}
use tephra.Index.Postings.{
  encode_varint, decode_varint, encode_postings, decode_postings, posting_len,
}
use tephra.Index.Postings.Varint.{decode-encode_varint}
use tephra.Index.Postings.RoundTrip.{decode-encode_postings}
use tephra.Log.Header.{SegmentHeader, to_bytes, from_bytes, from_bytes-to_bytes}
use tephra.Proto.Framing.{Codec, write_frame, given, blocked, Answer, new_reader}
use tephra.Proto.Framing.Stream.{stream}
use tephra.Proto.Framing.Messages.{drive, drive-stream}
use tephra.Proto.Convert.{condition_from_pb, condition_to_pb}
use tephra.Proto.Convert.RoundTrip.{IsQuery, condition_from_pb-condition_to_pb}
use tephra.Event.Utf8.{is_utf8}
use tephra.Tests.{asks_t, if_new}
use tephra.Tests.Seglog.{byte_sum}

three_hundred : encode_varint 300 ≡ 172 ∷ 2 ∷ []
unfolding encode_varint
three_hundred = refl

decode-encode_varint_example :
    (decode_varint (encode_varint 300 ++ 170 ∷ []) ≡ ok (300, length (encode_varint 300)))
    × (1 ≤ length (encode_varint 300))
    × (length (encode_varint 300) ≤ 10)
decode-encode_varint_example = decode-encode_varint 300 (170 ∷ []) (omega arith)

-- Two terms share a region.
decode-encode_postings_example :
    (decode_postings
        (encode_postings (2 ∷ 4 ∷ 600 ∷ []) (9 ∷ [])).0
        ((encode_postings (2 ∷ 4 ∷ 600 ∷ []) (9 ∷ [])).1 ++ 2 ∷ 1 ∷ 2 ∷ [])
      ≡ ok (2 ∷ 4 ∷ 600 ∷ []))
    × (posting_len
          (encode_postings (2 ∷ 4 ∷ 600 ∷ []) (9 ∷ [])).0
          ((encode_postings (2 ∷ 4 ∷ 600 ∷ []) (9 ∷ [])).1 ++ 2 ∷ 1 ∷ 2 ∷ [])
        ≡ ok 3)
decode-encode_postings_example =
    decode-encode_postings 2 (4 ∷ 600 ∷ []) (9 ∷ []) (2 ∷ 1 ∷ 2 ∷ []) (omega arith) (omega arith)
      (omega arith)

abbrev a_header : SegmentHeader
a_header = record { version = 0; created_at_nanos = 1356048000000000000; base_position = 123456789 }

from_bytes-to_bytes_example :
    (length (to_bytes byte_sum a_header) ≡ 64)
    × (from_bytes byte_sum (to_bytes byte_sum a_header) ≡ ok a_header)
from_bytes-to_bytes_example = from_bytes-to_bytes byte_sum a_header refl (omega arith) (omega arith)

-- Messages that are their own bytes.
abbrev plain : Codec Bytes
plain = record {
  serialize = λ msg. some msg;
  parse = λ body. some body;
  parse-serialize = λ msg body e. sym e;
}

abbrev two_frames : List (Bytes × Bytes)
two_frames = (7 ∷ [], 0 ∷ 0 ∷ 0 ∷ 1 ∷ 7 ∷ []) ∷ ([], 0 ∷ 0 ∷ 0 ∷ 0 ∷ []) ∷ []

abbrev trickle : List Answer
trickle =
    given 0
    ∷ blocked
    ∷ given 1
    ∷ given 9
    ∷ blocked
    ∷ given 0
    ∷ given 2
    ∷ given 0
    ∷ given 0
    ∷ given 0
    ∷ given 0
    ∷ []

drive-stream_example :
    drive plain 16 trickle new_reader (stream plain 16 two_frames) ≡ (7 ∷ []) ∷ [] ∷ []
unfolding write_frame
drive-stream_example =
    drive-stream plain 16 (omega arith) trickle two_frames (refl, (refl, tt)) tt (omega arith)

asks_t-IsQuery : IsQuery asks_t
unfolding is_utf8
asks_t-IsQuery =
    ((tt, ((refl, record { not_empty = omega arith; fits = omega arith }), tt), tt), tt)

condition_from_pb-condition_to_pb_example : condition_from_pb (condition_to_pb if_new) ≡ ok if_new
unfolding is_utf8
condition_from_pb-condition_to_pb_example =
    condition_from_pb-condition_to_pb if_new (asks_t-IsQuery, asks_t-IsQuery)
