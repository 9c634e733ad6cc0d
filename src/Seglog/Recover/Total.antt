-- ===== src/Seglog/Recover/Total.antt =====
-- The loop of recover ends: its fuel never runs out, whatever the file holds.
use tephra.Prelude.{
  ℕ, zero, suc, ◌+◌, ◌-◌, ◌≤◌, ◌<◌, ◌≡◌, refl, ◌∙◌, Option, none, some, arith, Option-cases, inl,
  inr, take, Bool-cases, [], ◌==◌,
}
use tephra.Prelude.Str.{Bytes}
use tephra.Prelude.Le.{bytes_at, of_le, to_le, slice}
use tephra.Seglog.{Crc32, len_size, record_head_size, length_of, calculate_crc32c}
use tephra.Seglog.Recover.{
  Valid, Recovered, check_payload, check_head, valid_record, accept, recover_loop, recover,
}

check_payload_end :
    (c : Crc32) (file : Bytes) (payload_offset raw crc : ℕ) (v : Valid)
    → check_payload c file payload_offset raw crc ≡ some v
    → v.record_end ≡ payload_offset + length_of raw
unfolding check_payload
check_payload_end c file payload_offset raw crc v h =
    go (bytes_at file payload_offset (length_of raw)) refl
  where
    go :
        (o : Option Bytes)
        → bytes_at file payload_offset (length_of raw) ≡ o
        → v.record_end ≡ payload_offset + length_of raw
    go none e = cc (rw (e, check_payload) at h)
    go (some payload) e = elim (Bool-cases (calculate_crc32c c (to_le 4 raw) [] payload == crc)) [
      | inl q ↦ cc (rw (e, q, check_payload) at h)
      | inr q ↦ cc (rw (e, q, check_payload) at h)
    ]

check_head_bounds :
    (c : Crc32) (file : Bytes) (size payload_offset : ℕ) (head : Bytes) (v : Valid)
    → check_head c file size payload_offset head ≡ some v
    → (payload_offset ≤ v.record_end) × (v.record_end ≤ size)
unfolding check_head
check_head_bounds c file size payload_offset head v h = ground (
  arith,
  check_payload_end c file payload_offset (of_le (take len_size head))
      (of_le (slice head len_size record_head_size)) v,
)

-- A validated record lies behind the cursor and within the size.
pub valid_record_bounds :
    (c : Crc32) (file : Bytes) (size cursor : ℕ) (v : Valid)
    → valid_record c file size cursor ≡ some v
    → (cursor + 8 ≤ v.record_end) × (v.record_end ≤ size)
unfolding valid_record
valid_record_bounds c file size cursor v h = go (bytes_at file cursor 8) refl
  where
    go :
        (o : Option Bytes)
        → bytes_at file cursor 8 ≡ o
        → (cursor + 8 ≤ v.record_end) × (v.record_end ≤ size)
    go none e = ground (arith, h, e)
    go (some head) e = ground (arith, h, e, check_head_bounds c file size (cursor + 8) head v)

accept_bounds :
    (v : Valid) (r : Recovered) (start size : ℕ)
    → start ≤ r.committed_offset
    → r.committed_offset ≤ size
    → start ≤ v.record_end
    → v.record_end ≤ size
    → (start ≤ (accept v r).committed_offset) × ((accept v r).committed_offset ≤ size)
unfolding accept
accept_bounds v r start size a b d e = ground arith

recover_loop_total :
    (fuel : ℕ) (c : Crc32) (file : Bytes) (size start cursor : ℕ) (r : Recovered)
    → cursor ≤ size
    → size < fuel + cursor
    → start ≤ cursor
    → start ≤ r.committed_offset
    → r.committed_offset ≤ size
    → (s : Recovered) × (recover_loop fuel c file size cursor r ≡ some s)
      × (start ≤ s.committed_offset)
      × (s.committed_offset ≤ size)
unfolding recover_loop
recover_loop_total zero c file size start cursor r a b d e g = absurd (omega arith)
recover_loop_total (suc fuel) c file size start cursor r a b d e g =
    elim (Option-cases (valid_record c file size cursor)) [
      | inl q ↦ rw (q, recover_loop) (r, refl, e, g)
      | inr (v, q) ↦
          let (lo, hi) = valid_record_bounds c file size cursor v q in
          let (lo', hi') = accept_bounds v r start size e g (omega arith) hi in
          rw (q, recover_loop)
            (recover_loop_total fuel c file size start v.record_end (accept v r) hi (omega arith)
              (omega arith) lo' hi')
    ]

-- Two amounts of fuel that are enough give the same result.
recover_loop_fuel :
    (f g : ℕ) (c : Crc32) (file : Bytes) (size cursor : ℕ) (r : Recovered)
    → cursor ≤ size
    → size < f + cursor
    → size < g + cursor
    → recover_loop f c file size cursor r ≡ recover_loop g c file size cursor r
unfolding recover_loop
recover_loop_fuel zero g c file size cursor r a b d = absurd (omega arith)
recover_loop_fuel (suc f) zero c file size cursor r a b d = absurd (omega arith)
recover_loop_fuel (suc f) (suc g) c file size cursor r a b d =
    elim (Option-cases (valid_record c file size cursor)) [
      | inl q ↦ rw (q, recover_loop) refl
      | inr (v, q) ↦
          let (lo, hi) = valid_record_bounds c file size cursor v q in
          rw (q, recover_loop)
            (recover_loop_fuel f g c file size v.record_end (accept v r) hi (omega arith)
              (omega arith))
    ]

-- The loop with enough fuel from a cursor on.
unfoldable pub recover_from : Crc32 → Bytes → ℕ → ℕ → Recovered → Option Recovered
unfolding recover_loop
recover_from c file size cursor r = recover_loop (suc size - cursor) c file size cursor r

pub recover-recover_from :
    (c : Crc32) (file : Bytes) (size start : ℕ)
    → start ≤ size
    → recover c file size start
      ≡ recover_from c file size start (record { committed_offset = start; last_position = none })
unfolding recover recover_from
recover-recover_from c file size start h =
    recover_loop_fuel (suc size) (suc size - start) c file size start
      (record { committed_offset = start; last_position = none }) h (omega arith) (omega arith)

pub recover_from-step :
    (c : Crc32) (file : Bytes) (size cursor : ℕ) (r : Recovered) (v : Valid)
    → cursor ≤ size
    → valid_record c file size cursor ≡ some v
    → recover_from c file size cursor r ≡ recover_from c file size v.record_end (accept v r)
unfolding recover_from
recover_from-step c file size cursor r v a h =
    let (lo, hi) = valid_record_bounds c file size cursor v h in
    recover_loop_fuel (suc size - cursor) (suc (suc size - cursor)) c file size cursor r a
      (omega arith) (omega arith)
    ∙ unfold recover_loop in
      rw (h, recover_loop)
        (recover_loop_fuel (suc size - cursor) (suc size - v.record_end) c file size v.record_end
          (accept v r) hi (omega arith) (omega arith))

pub recover_from-stop :
    (c : Crc32) (file : Bytes) (size cursor : ℕ) (r : Recovered)
    → cursor ≤ size
    → valid_record c file size cursor ≡ none
    → recover_from c file size cursor r ≡ some r
unfolding recover_from
recover_from-stop c file size cursor r a h =
    recover_loop_fuel (suc size - cursor) (suc (suc size - cursor)) c file size cursor r a
      (omega arith) (omega arith)
    ∙ unfold recover_loop in rw (h, recover_loop) refl

pub recover_from_total :
    (c : Crc32) (file : Bytes) (size start cursor : ℕ) (r : Recovered)
    → cursor ≤ size
    → start ≤ cursor
    → start ≤ r.committed_offset
    → r.committed_offset ≤ size
    → (s : Recovered) × (recover_from c file size cursor r ≡ some s)
      × (start ≤ s.committed_offset)
      × (s.committed_offset ≤ size)
unfolding recover_from
recover_from_total c file size start cursor r a d e g =
    recover_loop_total (suc size - cursor) c file size start cursor r a (omega arith) d e g

-- Whatever a file holds, recovery ends, and the committed end that it finds lies between the start
-- of the records and the size of the segment.
pub recover_total :
    (c : Crc32) (file : Bytes) (size start : ℕ)
    → start < size
    → (s : Recovered) × (recover c file size start ≡ some s)
      × (start ≤ s.committed_offset)
      × (s.committed_offset ≤ size)
unfolding recover
recover_total c file size start h =
    recover_loop_total (suc size) c file size start start
      (record { committed_offset = start; last_position = none }) (omega arith) (omega arith)
      (omega arith) (omega arith) (omega arith)
