-- ===== src/Event/Checks.antt =====
-- The checks of EventRef::from_bytes (crates/tephra/src/event.rs) on bytes that Event::new laid out.
use tephra.Prelude.{
  ℕ, ◌+◌, ◌*◌, ◌<◌, ◌≤◌, ◌≡◌, refl, sym, ◌∙◌, ap, true, false, [], ◌∷◌, ◌++◌, append_assoc, Option,
  some, length, length-append, All, arith,
}
use tephra.Prelude.Str.{Str, Bytes, str_lt_asymm, str_lt→ne, str_eq_comm}
use tephra.Prelude.Result.{ok}
use tephra.Types.Position.{u16_max, u64_mod}
use tephra.Types.Name.{IsName}
use tephra.Types.Tags.{Tags, IsAscending}
use tephra.Types.Tags.Order.{IsAscending-tail}
use tephra.Event.{to_le16, read_u16, slice, tag_lens, tag_bytes, tags_total, fixed_header}
use tephra.Event.Utf8.{is_utf8}
use tephra.Event.Decode.{sum_tag_lens, check_tags, not_above}
use tephra.Event.Layout.{read_u16-at, slice-append}

-- A name as the constructors of tephra-types make it, from a Rust string.
pub record IsText (s : Str) : Type 0 where
  pub name : IsName s
  pub utf8 : is_utf8 s ≡ true

module _ (t : Str) (ts : Tags) (buf pre post : Bytes)
    (e : buf ≡ pre ++ (tag_lens (t ∷ ts) ++ post)) where
  pub lens_read : (at : ℕ) → at ≡ length pre → length t ≤ u16_max → read_u16 buf at ≡ length t
  unfolding tag_lens
  lens_read at h k = rw e (read_u16-at pre (length t) (tag_lens ts ++ post) at h k)

  pub lens_shift : buf ≡ (pre ++ to_le16 (length t)) ++ (tag_lens ts ++ post)
  unfolding tag_lens
  lens_shift = e ∙ sym (append_assoc pre (to_le16 (length t)) (tag_lens ts ++ post))

  pub lens_shift_length : (i : ℕ) → i ≡ length pre → i + 2 ≡ length (pre ++ to_le16 (length t))
  lens_shift_length i h = omega (arith, length-append pre (to_le16 (length t)))

module _ (t : Str) (ts : Tags) (buf pre post : Bytes)
    (e : buf ≡ pre ++ (tag_bytes (t ∷ ts) ++ post)) where
  bytes_regroup : buf ≡ pre ++ (t ++ (tag_bytes ts ++ post))
  unfolding tag_bytes
  bytes_regroup = e ∙ ap (λ l. pre ++ l) (append_assoc t (tag_bytes ts) post)

  bytes_slice : (a b : ℕ) → a ≡ length pre → b ≡ a + length t → slice buf a b ≡ t
  bytes_slice a b h k = rw bytes_regroup (slice-append pre t (tag_bytes ts ++ post) a b h k)

  bytes_shift : buf ≡ (pre ++ t) ++ (tag_bytes ts ++ post)
  bytes_shift = bytes_regroup ∙ sym (append_assoc pre t (tag_bytes ts ++ post))

-- The first loop of the decoder adds up the lengths that stand behind `pre`.
pub sum_tag_lens-layout :
    (ts : Tags) (buf pre post : Bytes) (i total : ℕ)
    → All IsText ts
    → buf ≡ pre ++ (tag_lens ts ++ post)
    → fixed_header + 2 * i ≡ length pre
    → total + tags_total ts < u64_mod
    → sum_tag_lens buf (length ts) i total ≡ ok (total + tags_total ts)
unfolding sum_tag_lens tags_total
sum_tag_lens-layout [] buf pre post i total v e h b = ap ok (omega arith)
sum_tag_lens-layout (t ∷ ts) buf pre post i total v e h b =
    let ih =
      sum_tag_lens-layout ts buf (pre ++ to_le16 (length t)) post (i + 1) (total + length t) v.1
        (lens_shift t ts buf pre post e) (omega (arith, lens_shift_length t ts buf pre post e _ h))
        (omega arith) in
    rw (lens_read t ts buf pre post e _ h v.0.name.fits) (ground (arith, v.0.name.not_empty, ih))

-- In an ascending list the second tag is above the first.
head_above :
    (t : Str) (ts : Tags)
    → IsAscending (t ∷ ts)
    → (u : Str) (us : Tags) → ts ≡ u ∷ us
    → not_above (some t) u ≡ false
head_above t [] asc u us e = cc
head_above t (v ∷ ts) asc u us e = ground (arith, str_lt_asymm t u, str_lt→ne t u, str_eq_comm t u)

-- The second loop accepts the tags that stand there.
pub check_tags-layout :
    (ts : Tags) (buf hpre hpost bpre bpost : Bytes) (i pos : ℕ) (prev : Option Str)
    → All IsText ts
    → IsAscending ts
    → ((t : Str) (us : Tags) → ts ≡ t ∷ us → not_above prev t ≡ false)
    → buf ≡ hpre ++ (tag_lens ts ++ hpost)
    → fixed_header + 2 * i ≡ length hpre
    → buf ≡ bpre ++ (tag_bytes ts ++ bpost)
    → pos ≡ length bpre
    → check_tags buf (length ts) i pos prev ≡ ok tt
unfolding check_tags
check_tags-layout [] buf hpre hpost bpre bpost i pos prev v asc above e h f k = refl
check_tags-layout (t ∷ ts) buf hpre hpost bpre bpost i pos prev v asc above e h f k =
    let len = lens_read t ts buf hpre hpost e (fixed_header + 2 * i) h v.0.name.fits in
    let ih =
      check_tags-layout ts buf (hpre ++ to_le16 (length t)) hpost (bpre ++ t) bpost (i + 1)
        (pos + length t) (some t) v.1 (IsAscending-tail t ts asc) (head_above t ts asc)
        (lens_shift t ts buf hpre hpost e)
        (omega (arith, lens_shift_length t ts buf hpre hpost e _ h))
        (bytes_shift t ts buf bpre bpost f) (omega (arith, length-append bpre t)) in
    rw
      (
        len,
        bytes_slice t ts buf bpre bpost f pos (pos + length t) k refl,
        v.0.utf8,
        above t ts refl,
      )
      ih

-- One step of the iterator, where a length stands at its cursor.
