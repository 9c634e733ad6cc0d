-- ===== src/Proto/Framing/Messages.antt =====
-- A connection's reads through FrameReader::poll of crates/tephra-proto/src/framing.rs, to the end of the
-- stream.
use tephra.Prelude.{
  ℕ, suc, ◌^◌, ◌≤◌, ◌<◌, ◌≡◌, refl, sym, ap, subst, Bool, true, List, [], ◌∷◌, ltb, length,
  length-append, map, All, arith, lt→ltb, le→ltb_false, Bool-cases, inl, inr,
}
use tephra.Prelude.Str.{Bytes}
use tephra.Prelude.Result.{Result, ok, err}
use tephra.Proto.Framing.{
  Codec, FrameError, FrameReader, FramePoll, frame, eof, progress, would_block, Answer, blocked,
  failed, given, new_reader, poll, poll_prefix, poll_body, read_once,
}
use tephra.Proto.Framing.Stream.{
  Written, stream, At, in_prefix, in_body, delivered, advanced, ended, Comes, write_frame-not_empty,
  poll_body-Polled,
}
use tephra.Proto.Framing.Prefix.{poll_prefix-Polled}

module _ {M : Type 0} (codec : Codec M) (max_frame_len : ℕ) where
  -- The messages that polls with these answers deliver, until one fails.
  abbrev collect : FramePoll M → List M → List M
  collect (frame msg) rest = msg ∷ rest
  collect eof rest = rest
  collect progress rest = rest
  collect (would_block b) rest = rest

  unfoldable pub drive : List Answer → FrameReader → Bytes → List M
  unfolding poll
  drive [] r pending = []
  drive (answer ∷ answers) r pending =
      let (r', pending', result) = poll codec r pending answer max_frame_len in
      let rest = drive answers r' pending' in elim result [ err e ↦ [] | ok p ↦ collect p rest ]

  -- No read fails.
  abbrev pub NoneFails : List Answer → Type 0
  NoneFails [] = Unit
  NoneFails (blocked ∷ answers) = NoneFails answers
  NoneFails (given n ∷ answers) = NoneFails answers
  NoneFails (failed ∷ answers) = ⊥

  -- The reads that bytes are given to.
  abbrev pub reads : List Answer → ℕ
  reads [] = 0
  reads (given n ∷ answers) = suc (reads answers)
  reads (answer ∷ answers) = reads answers

  module _ (u32 : max_frame_len < 2 ^ 32) where
    poll-Polled :
        (r : FrameReader) (pending : Bytes) (n : ℕ) (ws : List (M × Bytes))
        → At codec max_frame_len r pending ws
        → Comes codec max_frame_len
            (length pending)
            ws
            (poll codec r pending (given n) max_frame_len)
    unfolding poll
    poll-Polled r pending n ws (in_prefix _ w lt e) =
        rw (lt→ltb (length r.len_buf) 4 lt)
          (poll_prefix-Polled codec max_frame_len r pending n ws u32 w lt e)
    poll-Polled r pending n _ (in_body msg bytes body ws w l s bl lt e) =
        rw (le→ltb_false (length r.len_buf) 4 (omega arith))
          (poll_body-Polled codec max_frame_len r pending n msg bytes body ws w l s bl lt e)

    poll-blocked :
        (r : FrameReader) (pending : Bytes)
        → (b : Bool) × (poll codec r pending blocked max_frame_len
            ≡ (r, pending, ok (would_block b)))
    unfolding poll poll_prefix poll_body read_once
    poll-blocked r pending = elim (Bool-cases (ltb (length r.len_buf) 4)) [
      | inl e ↦ (ltb 0 (length r.len_buf), rw (e, poll) refl)
      | inr e ↦ (true, rw (e, poll) refl)
    ]

    -- Nothing is left where no bytes are left.
    At-drained :
        (r : FrameReader) (pending : Bytes) (ws : List (M × Bytes))
        → At codec max_frame_len r pending ws
        → length pending ≤ 0
        → ws ≡ []
    At-drained r pending _ (in_prefix [] w lt e) h = refl
    At-drained r pending _ (in_prefix ((msg, bytes) ∷ ws) w lt e) h = absurd (
        omega (
          arith,
          ap length e,
          length-append r.len_buf pending,
          length-append bytes (stream codec max_frame_len ws),
          write_frame-not_empty codec max_frame_len msg bytes w.0,
        ))
    At-drained r pending _ (in_body msg bytes body ws w l s bl lt e) h = absurd (
        omega (
          arith,
          ap length e,
          length-append r.body pending,
          length-append body (stream codec max_frame_len ws),
        ))

    drive_step :
        (answers : List Answer) (x : FrameReader × Bytes × Result FrameError (FramePoll M))
        (ws : List (M × Bytes)) (size : ℕ)
        → Comes codec max_frame_len size ws x
        → size ≤ suc (reads answers)
        → ((r : FrameReader) (pending : Bytes) (vs : List (M × Bytes))
            → At codec max_frame_len r pending vs
            → length pending ≤ reads answers
            → drive answers r pending ≡ map (λ (w : M × Bytes). w.0) vs)
        → (elim x.2 [ err e ↦ [] | ok p ↦ collect p (drive answers x.0 x.1) ])
          ≡ map (λ (w : M × Bytes). w.0) ws
    drive_step answers (r, pending, _) _ size (delivered msg bytes ws at less) h ih =
        ap (λ l. msg ∷ l) (ih r pending ws at (omega arith))
    drive_step answers (r, pending, _) _ size (advanced ws at less) h ih =
        ih r pending ws at (omega arith)
    drive_step answers (r, pending, _) _ size (ended at none_left) h ih =
        ih r pending [] at (omega arith)

    drive-messages :
        (answers : List Answer) (r : FrameReader) (pending : Bytes) (ws : List (M × Bytes))
        → At codec max_frame_len r pending ws
        → NoneFails answers
        → length pending ≤ reads answers
        → drive answers r pending ≡ map (λ (w : M × Bytes). w.0) ws
    unfolding drive
    drive-messages [] r pending ws at f h = rw (At-drained r pending ws at h) refl
    drive-messages (failed ∷ answers) r pending ws at f h = absurd f
    drive-messages (blocked ∷ answers) r pending ws at f h =
        let (b, e) = poll-blocked r pending in
        subst
          (λ (x : FrameReader × Bytes × Result FrameError (FramePoll M)).
            (elim x.2 [ err e ↦ [] | ok p ↦ collect p (drive answers x.0 x.1) ])
            ≡ map (λ (w : M × Bytes). w.0) ws)
          (sym e) (drive-messages answers r pending ws at f h)
    drive-messages (given n ∷ answers) r pending ws at f h =
        drive_step answers (poll codec r pending (given n) max_frame_len) ws (length pending)
          (poll-Polled r pending n ws at) h
          (λ r' pending' vs at' h'. drive-messages answers r' pending' vs at' f h')

    -- Messages that write_frame framed, one after the other: polls on a fresh reader, whatever number
    -- of bytes each read is given and wherever reads would block, deliver these messages in order
    -- and each once, when no read fails and there are as many reads as bytes.
    pub drive-stream :
        (answers : List Answer) (ws : List (M × Bytes))
        → All (Written codec max_frame_len) ws
        → NoneFails answers
        → length (stream codec max_frame_len ws) ≤ reads answers
        → drive answers new_reader (stream codec max_frame_len ws) ≡ map (λ (w : M × Bytes). w.0) ws
    drive-stream answers ws w f h =
        drive-messages answers new_reader (stream codec max_frame_len ws) ws
          (in_prefix ws w (omega arith) refl) f h
