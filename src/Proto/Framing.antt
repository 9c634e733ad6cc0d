-- ===== src/Proto/Framing.antt =====
-- crates/tephra-proto/src/framing.rs: length-prefixed frames. A reader is what it will still deliver, and
-- what the system answers to one read is an argument. The protobuf crate's serialize and parse are
-- a parameter.
pub mod Stream
pub mod Prefix
pub mod Messages
use tephra.Prelude.{
  ℕ, suc, ◌+◌, ◌-◌, ◌*◌, ◌/◌, ◌%◌, ◌^◌, ◌<◌, ◌≡◌, Bool, true, false, List, [], ◌∷◌, ◌++◌, Option,
  none, some, if◌then◌else◌, ltb, ◌==◌, length, take, drop, min, is_empty,
}
use tephra.Prelude.Str.{Bytes}
use tephra.Prelude.Result.{Result, ok, err}

-- Message of the protobuf crate: what serializes parses again.
pub record Codec (M : Type 0) : Type 0 where
  pub serialize : M → Option Bytes
  pub parse : Bytes → Option M
  pub parse-serialize : (msg : M) (body : Bytes) → serialize msg ≡ some body → parse body ≡ some msg

pub data FrameError : Type 0 where
  io parse_error serialize_error torn : FrameError
  too_large : ℕ → ℕ → FrameError

-- u32::to_be_bytes, from_be_bytes
abbrev pub to_be32 : ℕ → Bytes
to_be32 n = n / 2 ^ 24 % 256 ∷ n / 2 ^ 16 % 256 ∷ n / 2 ^ 8 % 256 ∷ n % 256 ∷ []

abbrev pub of_be : ℕ → Bytes → ℕ
of_be acc [] = acc
of_be acc (b ∷ bs) = of_be (256 * acc + b) bs

abbrev pub u32_end : ℕ
u32_end = 2 ^ 32

-- FrameReader: the bytes of the length prefix read so far, the length that the body is resized to,
-- and the bytes of the body read so far.
pub record FrameReader : Type 0 where
  pub len_buf : Bytes
  pub body_len : ℕ
  pub body : Bytes

-- FrameReader::new
abbrev pub new_reader : FrameReader
new_reader = record { len_buf = []; body_len = 0; body = [] }

pub data FramePoll (M : Type 0) : Type 0 where
  frame : M → FramePoll M
  eof progress : FramePoll M
  would_block : Bool → FramePoll M

-- What a read is met with: it would block, it fails, or there are bytes, of which it is given a number
-- if it has room for them and the peer sends so many. Interrupted reads are repeated within a read.
pub data Answer : Type 0 where
  blocked failed : Answer
  given : ℕ → Answer

pub data ReadStep : Type 0 where
  step_progress : Bytes → Bytes → ReadStep
  step_would_block step_eof step_io : ReadStep

-- read_once, into a buffer with `room` bytes left: no bytes at all are the end of the stream, as is a
-- buffer without room.
unfoldable pub read_once : Answer → Bytes → ℕ → ReadStep
read_once blocked pending room = step_would_block
read_once failed pending room = step_io
read_once (given n) pending room =
    let got = take (min (suc n) room) pending in
    if is_empty got then step_eof else step_progress got (drop (min (suc n) room) pending)

module _ {M : Type 0} (codec : Codec M) where
  -- write_frame: the bytes that it writes
  unfoldable pub write_frame : M → ℕ → Result FrameError Bytes
  write_frame msg max_frame_len = elim (codec.serialize msg) [
    | none ↦ err serialize_error
    | some body ↦
        if ltb max_frame_len (length body)
        then err (too_large (min (length body) (u32_end - 1)) max_frame_len)
        else ok (to_be32 (length body % u32_end) ++ body)
  ]

  -- FrameReader::finish
  unfoldable pub finish : FrameReader → FrameReader × Result FrameError (FramePoll M)
  finish r = elim (codec.parse r.body) [
    | none ↦ (r, err parse_error)
    | some msg ↦ (new_reader, ok (frame msg))
  ]

  -- FrameReader::poll while the length prefix is read
  unfoldable pub poll_prefix :
      FrameReader → Bytes → Answer → ℕ → FrameReader × Bytes × Result FrameError (FramePoll M)
  unfolding read_once finish
  poll_prefix r pending answer max_frame_len =
      elim (read_once answer pending (4 - length r.len_buf)) [
        | step_io ↦ (r, pending, err io)
        | step_eof ↦ (r, pending, if length r.len_buf == 0 then ok eof else err torn)
        | step_would_block ↦ (r, pending, ok (would_block (ltb 0 (length r.len_buf))))
        | step_progress got rest ↦
            let filled = record r { len_buf = r.len_buf ++ got } in
            let len = of_be 0 filled.len_buf in
            let sized = record filled { body_len = len; body = [] } in
            if ltb (length filled.len_buf) 4
            then (filled, rest, ok progress)
            else if ltb max_frame_len len
            then (filled, rest, err (too_large len max_frame_len))
            else if len == 0
            then ((finish sized).0, rest, (finish sized).1)
            else (sized, rest, ok progress)
      ]

  -- FrameReader::poll while the body is read
  unfoldable pub poll_body :
      FrameReader → Bytes → Answer → FrameReader × Bytes × Result FrameError (FramePoll M)
  unfolding read_once finish
  poll_body r pending answer = elim (read_once answer pending (r.body_len - length r.body)) [
    | step_io ↦ (r, pending, err io)
    | step_eof ↦ (r, pending, err torn)
    | step_would_block ↦ (r, pending, ok (would_block true))
    | step_progress got rest ↦
        let filled = record r { body = r.body ++ got } in
        if ltb (length filled.body) filled.body_len
        then (filled, rest, ok progress)
        else ((finish filled).0, rest, (finish filled).1)
  ]

  -- FrameReader::poll
  unfoldable pub poll :
      FrameReader → Bytes → Answer → ℕ → FrameReader × Bytes × Result FrameError (FramePoll M)
  unfolding poll_prefix poll_body
  poll r pending answer max_frame_len =
      if ltb (length r.len_buf) 4
      then poll_prefix r pending answer max_frame_len
      else poll_body r pending answer
