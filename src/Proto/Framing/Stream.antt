-- ===== src/Proto/Framing/Stream.antt =====
-- Any way of reading a stream of frames that crates/tephra-proto/src/framing.rs wrote gives the
-- messages, each once and in order.
use tephra.Prelude.{
  ℕ, zero, suc, ◌-◌, ◌%◌, ◌^◌, ◌≤◌, ◌<◌, ◌≡◌, refl, sym, ap, ◌∙◌, subst, ◌⊎◌, inl, inr, List, [],
  ◌∷◌, ◌++◌, append_assoc, Option, none, some, if◌then◌else◌, ltb, length, length-append,
  length-take, take, drop, take-append-drop, min, is_empty, All, arith, Bool-cases, ltb→lt,
  ltb_false→le,
}
use tephra.Prelude.Str.{Bytes}
use tephra.Prelude.Result.{Result, ok}
use tephra.Proto.Framing.{
  Codec, FrameError, FrameReader, FramePoll, frame, eof, progress, given, step_progress, step_eof,
  to_be32, of_be, new_reader, read_once, write_frame, finish, poll_body, u32_end,
}

pub append_cancel {ℓ} :
    {A : Type ℓ} (xs zs ys ws : List A)
    → xs ++ ys ≡ zs ++ ws
    → length xs ≡ length zs
    → (xs ≡ zs) × (ys ≡ ws)
append_cancel [] [] ys ws e h = (refl, e)
append_cancel [] (z ∷ zs) ys ws e h = absurd (omega arith)
append_cancel (x ∷ xs) [] ys ws e h = absurd (omega arith)
append_cancel (x ∷ xs) (z ∷ zs) ys ws e h =
    let (p, q) = append_cancel xs zs ys ws (cc) (omega arith) in ((cc), q)

-- What a read delivers is a part of the stream that is not empty, within the room.
pub read_once-splits :
    (n : ℕ) (pending : Bytes) (room : ℕ)
    → ((read_once (given n) pending room ≡ step_eof) × ((pending ≡ []) ⊎ (room ≡ 0)))
      ⊎ ((got : Bytes) × (rest : Bytes) × (read_once (given n) pending room
            ≡ step_progress got rest)
          × (got ++ rest ≡ pending)
          × (1 ≤ length got)
          × (length got ≤ room))
unfolding read_once
read_once-splits n pending room = go (min (suc n) room) refl pending
  where
    go :
        (k : ℕ)
        → min (suc n) room ≡ k
        → (p : Bytes)
        → (((if is_empty (take k p) then step_eof else step_progress (take k p) (drop k p))
              ≡ step_eof)
            × ((p ≡ []) ⊎ (room ≡ 0)))
          ⊎ ((got : Bytes) × (rest : Bytes) × ((if is_empty (take k p)
                  then step_eof
                  else step_progress (take k p) (drop k p))
                ≡ step_progress got rest)
              × (got ++ rest ≡ p)
              × (1 ≤ length got)
              × (length got ≤ room))
    go zero e p = inl (refl, inr (omega (arith, e)))
    go (suc k) e [] = inl (refl, inl refl)
    go (suc k) e (x ∷ p) = inr (
      x ∷ take k p,
      drop k p,
      refl,
      ap (λ l. x ∷ l) (take-append-drop k p),
      omega arith,
      omega (arith, e, length-take k p),
    )

pub fewer :
    (pending got rest : Bytes)
    → got ++ rest ≡ pending
    → 1 ≤ length got
    → length rest < length pending
fewer pending got rest e h = omega (arith, ap length e, length-append got rest)

pub of_be-to_be32 : (n : ℕ) → n < 2 ^ 32 → of_be 0 (to_be32 n) ≡ n
of_be-to_be32 n h = omega arith

-- Messages with the frames that write_frame writes for them, and the stream of these.
module _ {M : Type 0} (codec : Codec M) (max_frame_len : ℕ) where
  abbrev pub Written : M × Bytes → Type 0
  Written w = write_frame codec w.0 max_frame_len ≡ ok w.1

  abbrev pub stream : List (M × Bytes) → Bytes
  stream [] = []
  stream (w ∷ ws) = w.1 ++ stream ws

  -- The frame of a message, taken apart.
  pub write_frame_parts :
      (msg : M) (bytes : Bytes)
      → write_frame codec msg max_frame_len ≡ ok bytes
      → (body : Bytes) × (codec.serialize msg ≡ some body)
        × (length body ≤ max_frame_len)
        × (bytes ≡ to_be32 (length body % u32_end) ++ body)
  unfolding write_frame
  write_frame_parts msg bytes h = go (codec.serialize msg) refl
    where
      go :
          (o : Option Bytes)
          → codec.serialize msg ≡ o
          → (body : Bytes) × (codec.serialize msg ≡ some body)
            × (length body ≤ max_frame_len)
            × (bytes ≡ to_be32 (length body % u32_end) ++ body)
      go none e = cc (rw (e, write_frame) at h)
      go (some body) e = elim (Bool-cases (ltb max_frame_len (length body))) [
        | inl q ↦ cc (rw (e, q, write_frame) at h)
        | inr q ↦ (body, e, ltb_false→le _ _ q, cc (rw (e, q, write_frame) at h))
      ]

  -- Where a reader stands in the stream: in the length prefix of the next frame, or in its body.
  pub data At (r : FrameReader) (pending : Bytes) : List (M × Bytes) → Type 0 where
    in_prefix :
        (ws : List (M × Bytes))
        → All Written ws
        → length r.len_buf < 4
        → r.len_buf ++ pending ≡ stream ws
        → At r pending ws
    in_body :
        (msg : M) (bytes body : Bytes) (ws : List (M × Bytes))
        → All Written ws
        → length r.len_buf ≡ 4
        → codec.serialize msg ≡ some body
        → r.body_len ≡ length body
        → length r.body < r.body_len
        → r.body ++ pending ≡ body ++ stream ws
        → At r pending ((msg, bytes) ∷ ws)

  -- What a poll comes to, for the frames that are still to come, where `size` bytes were.
  pub data Polled (size : ℕ) (r' : FrameReader) (pending' : Bytes)
      : List (M × Bytes) → Result FrameError (FramePoll M) → Type 0 where
    delivered :
        (msg : M) (bytes : Bytes) (ws : List (M × Bytes))
        → At r' pending' ws
        → length pending' < size
        → Polled size r' pending' ((msg, bytes) ∷ ws) (ok (frame msg))
    advanced :
        (ws : List (M × Bytes))
        → At r' pending' ws
        → length pending' < size
        → Polled size r' pending' ws (ok progress)
    ended : At r' pending' [] → length pending' ≤ 0 → Polled size r' pending' [] (ok eof)

  -- The same, for a whole result of a poll.
  abbrev pub Comes :
      ℕ → List (M × Bytes) → FrameReader × Bytes × Result FrameError (FramePoll M) → Type 0
  Comes size ws x = Polled size x.0 x.1 ws x.2

  pub finish-serialized :
      (r : FrameReader) (msg : M)
      → codec.serialize msg ≡ some r.body
      → finish codec r ≡ (new_reader, ok (frame msg))
  unfolding finish
  finish-serialized r msg h = rw (codec.parse-serialize msg r.body h, finish) refl

  pub fresh-At :
      (pending : Bytes) (ws : List (M × Bytes))
      → All Written ws
      → pending ≡ stream ws
      → At new_reader pending ws
  fresh-At pending ws h e = in_prefix ws h (omega arith) e

  pub poll_body-Polled :
      (r : FrameReader) (pending : Bytes) (n : ℕ) (msg : M) (bytes body : Bytes)
      (ws : List (M × Bytes))
      → All Written ws
      → length r.len_buf ≡ 4
      → codec.serialize msg ≡ some body
      → r.body_len ≡ length body
      → length r.body < r.body_len
      → r.body ++ pending ≡ body ++ stream ws
      → Comes (length pending) ((msg, bytes) ∷ ws) (poll_body codec r pending (given n))
  unfolding poll_body
  poll_body-Polled r pending n msg bytes body ws w l s bl lt e =
      elim (read_once-splits n pending (r.body_len - length r.body)) [
        | inl (q, inl none_left) ↦ absurd (
            omega (
              arith,
              ap length e,
              ap length none_left,
              length-append r.body pending,
              length-append body (stream ws),
            ))
        | inl (q, inr full) ↦ absurd (omega (arith, full))
        | inr (got, rest, q, parts, some_got, room) ↦
            let moved : (r.body ++ got) ++ rest ≡ body ++ stream ws =
              append_assoc r.body got rest ∙ (ap (λ p. r.body ++ p) parts ∙ e) in
            elim (Bool-cases (ltb (length (r.body ++ got)) r.body_len)) [
              | inl more ↦
                  let filled : FrameReader = record r { body = r.body ++ got } in
                  let eq : poll_body codec r pending (given n) ≡ (filled, rest, ok progress) =
                    rw (q, more, poll_body) refl in
                  subst (Comes (length pending) ((msg, bytes) ∷ ws)) (sym eq) (
                    advanced ((msg, bytes) ∷ ws)
                      (in_body msg bytes body ws w l s bl (ltb→lt _ _ more) moved)
                      (fewer pending got rest parts some_got))
              | inr done ↦
                  let (whole, behind) =
                    append_cancel (r.body ++ got) body rest (stream ws) moved
                      (omega (arith, length-append r.body got, ltb_false→le _ _ done, bl)) in
                  let end =
                    finish-serialized (record r { body = r.body ++ got }) msg
                      (s ∙ ap some (sym whole)) in
                  let eq : poll_body codec r pending (given n)
                      ≡ (new_reader, rest, ok (frame msg)) =
                    rw (q, done, end, poll_body) refl in
                  subst (Comes (length pending) ((msg, bytes) ∷ ws)) (sym eq) (
                    delivered msg bytes ws (fresh-At rest ws w behind)
                      (fewer pending got rest parts some_got))
            ]
      ]

  pub write_frame-not_empty :
      (msg : M) (bytes : Bytes) → write_frame codec msg max_frame_len ≡ ok bytes → 4 ≤ length bytes
  write_frame-not_empty msg bytes h =
      let (body, s, small, e) = write_frame_parts msg bytes h in
      omega (arith, ap length e, length-append (to_be32 (length body % u32_end)) body)
