-- ===== src/Proto/Framing/Prefix.antt =====
-- The length prefix of a frame, as crates/tephra-proto/src/framing.rs reads it.
use tephra.Prelude.{
  ℕ, ◌-◌, ◌%◌, ◌^◌, ◌<◌, ◌≡◌, refl, sym, ap, ◌∙◌, subst, inl, inr, true, false, List, [], ◌∷◌, ◌++◌,
  append_assoc, some, ltb, ◌==◌, length, length-append, All, arith, Bool-cases, ltb→lt,
  ltb_false→le, le→ltb_false, ==_iff,
}
use tephra.Prelude.Str.{Bytes}
use tephra.Prelude.Result.{ok}
use tephra.Proto.Framing.{
  Codec, FrameReader, frame, eof, progress, given, step_progress, step_eof, to_be32, of_be,
  new_reader, read_once, poll_prefix, u32_end,
}
use tephra.Proto.Framing.Stream.{
  append_cancel, fewer, read_once-splits, of_be-to_be32, Written, stream, write_frame_parts,
  in_prefix, in_body, delivered, advanced, ended, Comes, finish-serialized, fresh-At,
  write_frame-not_empty,
}

module _ {M : Type 0} (codec : Codec M) (max_frame_len : ℕ) where
  -- The steps of poll_prefix, each by what was read.
  module _ (r : FrameReader) (pending : Bytes) (n : ℕ) (got rest : Bytes)
      (q : read_once (given n) pending (4 - length r.len_buf) ≡ step_progress got rest) where
    prefix_more :
        ltb (length (r.len_buf ++ got)) 4 ≡ true
        → poll_prefix codec r pending (given n) max_frame_len
          ≡ (record r { len_buf = r.len_buf ++ got }, rest, ok progress)
    unfolding poll_prefix
    prefix_more m = rw (q, m, poll_prefix) refl

    module _ (len : ℕ) (full : ltb (length (r.len_buf ++ got)) 4 ≡ false)
        (l : of_be 0 (r.len_buf ++ got) ≡ len) (small : ltb max_frame_len len ≡ false) where
      prefix_body :
          (len == 0) ≡ false
          → poll_prefix codec r pending (given n) max_frame_len ≡ (
            record r { len_buf = r.len_buf ++ got; body_len = len; body = [] },
            rest,
            ok progress,
          )
      unfolding poll_prefix
      prefix_body z = rw (q, full, l, small, z, poll_prefix) refl

      prefix_empty :
          (msg : M)
          → (len == 0) ≡ true
          → codec.serialize msg ≡ some []
          → poll_prefix codec r pending (given n) max_frame_len ≡ (new_reader, rest, ok (frame msg))
      unfolding poll_prefix
      prefix_empty msg z s =
          rw
            (
              q,
              full,
              l,
              small,
              z,
              finish-serialized codec max_frame_len
                  (record r { len_buf = r.len_buf ++ got; body_len = len; body = [] }) msg s,
              poll_prefix,
            )
            refl

  prefix_end :
      (r : FrameReader) (pending : Bytes) (n : ℕ)
      → read_once (given n) pending (4 - length r.len_buf) ≡ step_eof
      → (length r.len_buf == 0) ≡ true
      → poll_prefix codec r pending (given n) max_frame_len ≡ (r, pending, ok eof)
  unfolding poll_prefix
  prefix_end r pending n q z = rw (q, z, poll_prefix) refl

  -- A whole prefix, of a frame whose body has `len` bytes.
  prefix_full-Polled :
      (r : FrameReader) (pending : Bytes) (n : ℕ) (got rest : Bytes) (msg : M) (bytes : Bytes)
      (ws : List (M × Bytes))
      → max_frame_len < 2 ^ 32
      → Written codec max_frame_len (msg, bytes)
      → All (Written codec max_frame_len) ws
      → read_once (given n) pending (4 - length r.len_buf) ≡ step_progress got rest
      → length (r.len_buf ++ got) ≡ 4
      → (r.len_buf ++ got) ++ rest ≡ bytes ++ stream codec max_frame_len ws
      → length rest < length pending
      → Comes codec max_frame_len
          (length pending)
          ((msg, bytes) ∷ ws)
          (poll_prefix codec r pending (given n) max_frame_len)
  prefix_full-Polled r pending n got rest msg bytes ws u32 written w q four e less =
      let (body, s, small, parts) = write_frame_parts codec max_frame_len msg bytes written in
      let len_bytes = to_be32 (length body % u32_end) in
      let (whole, behind) =
        append_cancel (r.len_buf ++ got) len_bytes rest (body ++ stream codec max_frame_len ws)
          (e
            ∙ (ap (λ b. b ++ stream codec max_frame_len ws) parts
                ∙ append_assoc len_bytes body (stream codec max_frame_len ws)))
          four in
      let l : of_be 0 (r.len_buf ++ got) ≡ length body =
        ap (of_be 0) whole ∙ (of_be-to_be32 (length body % u32_end) (omega arith) ∙ omega arith) in
      let full = le→ltb_false (length (r.len_buf ++ got)) 4 (omega arith) in
      let fits = le→ltb_false max_frame_len (length body) small in
      elim (Bool-cases (length body == 0)) [
        | inl z ↦
            let nothing = empty_of body ((==_iff (length body) 0).0 z) in
            subst (Comes codec max_frame_len (length pending) ((msg, bytes) ∷ ws))
              (sym (
                prefix_empty r pending n got rest q (length body) full l fits msg z
                  (s ∙ ap some nothing)))
              (delivered msg bytes ws
                (fresh-At codec max_frame_len rest ws w
                  (behind ∙ ap (λ b. b ++ stream codec max_frame_len ws) nothing))
                less)
        | inr z ↦
            subst (Comes codec max_frame_len (length pending) ((msg, bytes) ∷ ws))
              (sym (prefix_body r pending n got rest q (length body) full l fits z))
              (advanced ((msg, bytes) ∷ ws)
                (in_body msg bytes body ws w four s refl (ground (arith, z)) behind) less)
      ]
    where
      empty_of : (xs : Bytes) → length xs ≡ 0 → xs ≡ []
      empty_of [] h = refl
      empty_of (x ∷ xs) h = absurd (omega arith)

  pub poll_prefix-Polled :
      (r : FrameReader) (pending : Bytes) (n : ℕ) (ws : List (M × Bytes))
      → max_frame_len < 2 ^ 32
      → All (Written codec max_frame_len) ws
      → length r.len_buf < 4
      → r.len_buf ++ pending ≡ stream codec max_frame_len ws
      → Comes codec max_frame_len
          (length pending)
          ws
          (poll_prefix codec r pending (given n) max_frame_len)
  poll_prefix-Polled r pending n ws u32 w lt e =
      elim (read_once-splits n pending (4 - length r.len_buf)) [
        | inl (q, inl none_left) ↦ ended_here ws w e q none_left
        | inl (q, inr full) ↦ absurd (omega (arith, full))
        | inr (got, rest, q, parts, some_got, room) ↦
            let moved : (r.len_buf ++ got) ++ rest ≡ stream codec max_frame_len ws =
              append_assoc r.len_buf got rest ∙ (ap (λ p. r.len_buf ++ p) parts ∙ e) in
            elim (Bool-cases (ltb (length (r.len_buf ++ got)) 4)) [
              | inl more ↦
                  subst (Comes codec max_frame_len (length pending) ws)
                    (sym (prefix_more r pending n got rest q more))
                    (advanced ws (in_prefix ws w (ltb→lt _ _ more) moved)
                      (fewer pending got rest parts some_got))
              | inr done ↦
                  full_here ws w got rest q
                    (omega (arith, ltb_false→le _ _ done, length-append r.len_buf got)) moved
                    (fewer pending got rest parts some_got)
            ]
      ]
    where
      ended_here :
          (vs : List (M × Bytes))
          → All (Written codec max_frame_len) vs
          → r.len_buf ++ pending ≡ stream codec max_frame_len vs
          → read_once (given n) pending (4 - length r.len_buf) ≡ step_eof
          → pending ≡ []
          → Comes codec max_frame_len
              (length pending)
              vs
              (poll_prefix codec r pending (given n) max_frame_len)
      ended_here [] v h q none_left =
          subst (Comes codec max_frame_len (length pending) [])
            (sym (
              prefix_end r pending n q (
                (==_iff (length r.len_buf) 0).1
                  (omega (arith, ap length h, length-append r.len_buf pending)))))
            (ended (in_prefix [] v lt h) (omega (arith, ap length none_left)))
      ended_here ((msg, bytes) ∷ vs) v h q none_left = absurd (
          omega (
            arith,
            ap length h,
            ap length none_left,
            length-append r.len_buf pending,
            length-append bytes (stream codec max_frame_len vs),
            write_frame-not_empty codec max_frame_len msg bytes v.0,
          ))

      full_here :
          (vs : List (M × Bytes))
          → All (Written codec max_frame_len) vs
          → (got rest : Bytes)
          → read_once (given n) pending (4 - length r.len_buf) ≡ step_progress got rest
          → length (r.len_buf ++ got) ≡ 4
          → (r.len_buf ++ got) ++ rest ≡ stream codec max_frame_len vs
          → length rest < length pending
          → Comes codec max_frame_len
              (length pending)
              vs
              (poll_prefix codec r pending (given n) max_frame_len)
      full_here [] v got rest q four h less =
          absurd (omega (arith, ap length h, length-append (r.len_buf ++ got) rest))
      full_here ((msg, bytes) ∷ vs) v got rest q four h less =
          prefix_full-Polled r pending n got rest msg bytes vs u32 v.0 v.1 q four h less
