-- ===== src/Event/RoundTrip.antt =====
-- Event::new and EventRef::from_bytes of crates/tephra/src/event.rs undo one another.
use tephra.Prelude.{
  ℕ, ◌+◌, ◌*◌, ◌/◌, ◌≤◌, ◌≡◌, refl, sym, ◌∙◌, ap, false, [], ◌∷◌, ◌++◌, append_assoc, append-nil,
  ltb, le→ltb_false, none, some, length, length-append, drop, take, All, arith, take-append_length,
  drop-append_length,
}
use tephra.Prelude.Str.{Str, Bytes}
use tephra.Prelude.Result.{ok}
use tephra.Types.Position.{u16_max, u32_max}
use tephra.Types.Name.{EventType}
use tephra.Types.Tags.{Tags, IsAscending}
use tephra.Event.{
  Event, new, as_bytes, as_ref, to_le16, read_u16, slice, tag_lens, tag_bytes, tags_total,
  header_len, fixed_header, TagsRef, next_tag, collect_tags, tags, event_type, payload,
}
use tephra.Event.Decode.{from_bytes}
use tephra.Event.Layout.{read_u16-at, slice-append, length-tag_lens, length-tag_bytes}
use tephra.Event.Checks.{
  IsText, lens_read, lens_shift, lens_shift_length, sum_tag_lens-layout, check_tags-layout,
}

pub next_tag-step :
    (r : TagsRef) (n : ℕ) (t : Str)
    → ltb (length r.lens) (r.idx * 2 + 2) ≡ false
    → read_u16 r.lens (r.idx * 2) ≡ n
    → take n r.data_bytes ≡ t
    → next_tag r
      ≡ some (t, record { data_bytes = drop n r.data_bytes; lens = r.lens; idx = r.idx + 1 })
unfolding next_tag
next_tag-step r n t room len head = ground (arith, room, len, head)

-- The iterator yields the tags that stand behind its cursor.
collect_tags-layout :
    (ts : Tags) (r : TagsRef) (pre post : Bytes)
    → All IsText ts
    → r.lens ≡ pre ++ tag_lens ts
    → r.idx * 2 ≡ length pre
    → r.data_bytes ≡ tag_bytes ts ++ post
    → collect_tags (length ts) r ≡ ts
unfolding collect_tags tag_bytes
collect_tags-layout [] r pre post v e h f = refl
collect_tags-layout (t ∷ ts) r pre post v e h f =
    let e' : r.lens ≡ pre ++ (tag_lens (t ∷ ts) ++ []) = rw append-nil e in
    let len = lens_read t ts r.lens pre [] e' (r.idx * 2) h v.0.name.fits in
    let f' : r.data_bytes ≡ t ++ (tag_bytes ts ++ post) = f ∙ append_assoc t (tag_bytes ts) post in
    let rest = tag_bytes ts ++ post in
    let room : ltb (length r.lens) (r.idx * 2 + 2) ≡ false = le→ltb_false _ _ (
      omega
        (arith, ap length e, length-append pre (tag_lens (t ∷ ts)), length-tag_lens (t ∷ ts))) in
    let r' : TagsRef = record {
      data_bytes = drop (length t) r.data_bytes;
      lens = r.lens;
      idx = r.idx + 1;
    } in
    let lens' : r.lens ≡ (pre ++ to_le16 (length t)) ++ tag_lens ts =
      rw (← append-nil (tag_lens ts)) (lens_shift t ts r.lens pre [] e') in
    let ih =
      collect_tags-layout ts r' (pre ++ to_le16 (length t)) post v.1 lens'
        (omega (arith, lens_shift_length t ts r.lens pre [] e' (r.idx * 2) h))
        (ap (drop (length t)) f' ∙ drop-append_length t rest) in
    let head : take (length t) r.data_bytes ≡ t =
      ap (take (length t)) f' ∙ take-append_length t rest in
    ground (arith, next_tag-step r (length t) t room len head, ih)

-- The parts of an encoded event.
module _ (ty : EventType) (ts : Tags) (data_bytes buf : Bytes) (text : IsText ty)
    (texts : All IsText ts) (asc : IsAscending ts) (few : length ts ≤ u16_max)
    (e : buf
      ≡ to_le16 (length ty)
        ++ (to_le16 (length ts) ++ (tag_lens ts ++ (ty ++ (tag_bytes ts ++ data_bytes))))) where
  abbrev head : Bytes
  head = to_le16 (length ty) ++ to_le16 (length ts)

  abbrev data_start : ℕ
  data_start = header_len (length ts) + length ty + tags_total ts

  type_len_read : read_u16 buf 0 ≡ length ty
  type_len_read = rw e (read_u16-at [] (length ty) _ 0 refl text.name.fits)

  tag_count_read : read_u16 buf 2 ≡ length ts
  tag_count_read = rw e (read_u16-at (to_le16 (length ty)) (length ts) _ 2 refl few)

  lens_at : buf ≡ head ++ (tag_lens ts ++ (ty ++ (tag_bytes ts ++ data_bytes)))
  lens_at = e

  type_at : buf ≡ (head ++ tag_lens ts) ++ (ty ++ (tag_bytes ts ++ data_bytes))
  type_at = e

  tags_at : buf ≡ ((head ++ tag_lens ts) ++ ty) ++ (tag_bytes ts ++ data_bytes)
  tags_at = simp append_assoc e

  data_at : buf ≡ (((head ++ tag_lens ts) ++ ty) ++ tag_bytes ts) ++ data_bytes
  data_at = simp append_assoc e

  length_header : length (head ++ tag_lens ts) ≡ header_len (length ts)
  length_header = omega (arith, length-tag_lens ts)

  length_prefix : length ((head ++ tag_lens ts) ++ ty) ≡ header_len (length ts) + length ty
  length_prefix = omega (arith, length_header, length-append (head ++ tag_lens ts) ty)

  length_before_data : length (((head ++ tag_lens ts) ++ ty) ++ tag_bytes ts) ≡ data_start
  length_before_data = omega (
    arith,
    length_prefix,
    length-append ((head ++ tag_lens ts) ++ ty) (tag_bytes ts),
    length-tag_bytes ts,
  )

  data_start-le-length : data_start ≤ length buf
  data_start-le-length = omega (
    arith,
    ap length data_at,
    length_before_data,
    length-append (((head ++ tag_lens ts) ++ ty) ++ tag_bytes ts) data_bytes,
  )

  type_slice : slice buf (header_len (length ts)) (header_len (length ts) + length ty) ≡ ty
  type_slice = rw type_at (
      slice-append (head ++ tag_lens ts) ty (tag_bytes ts ++ data_bytes) _ _ (sym length_header)
        refl)

  data_drop : drop data_start buf ≡ data_bytes
  data_drop =
      rw (← length_before_data, data_at)
        (drop-append_length (((head ++ tag_lens ts) ++ ty) ++ tag_bytes ts) data_bytes)

  layout-from_bytes :
      data_start ≤ u32_max → from_bytes buf ≡ ok (record { buf = buf; data_offset = data_start })
  unfolding from_bytes
  layout-from_bytes small =
      let sums =
        sum_tag_lens-layout ts buf head (ty ++ (tag_bytes ts ++ data_bytes)) 0 0 texts lens_at refl
          (omega arith) in
      let checks =
        check_tags-layout ts buf head (ty ++ (tag_bytes ts ++ data_bytes))
          ((head ++ tag_lens ts) ++ ty) data_bytes 0 (header_len (length ts) + length ty) none texts
          asc (λ t us q. refl) lens_at refl tags_at (sym length_prefix) in
      rw (type_len_read, tag_count_read, type_slice)
        (ground (arith, sums, checks, text.utf8, text.name.not_empty, data_start-le-length))

  layout-event_type : (at : ℕ) → event_type (record { buf = buf; data_offset = at }) ≡ ty
  unfolding event_type
  layout-event_type at = rw (type_len_read, tag_count_read) type_slice

  lens_slice : slice buf fixed_header (fixed_header + 2 * length ts) ≡ tag_lens ts
  lens_slice = rw lens_at (
      slice-append head (tag_lens ts) (ty ++ (tag_bytes ts ++ data_bytes)) _ _ refl
        (omega (arith, length-tag_lens ts)))

  tags_drop : drop (header_len (length ts) + length ty) buf ≡ tag_bytes ts ++ data_bytes
  tags_drop =
      rw (← length_prefix, tags_at)
        (drop-append_length ((head ++ tag_lens ts) ++ ty) (tag_bytes ts ++ data_bytes))

  layout-tags : (at : ℕ) → tags (record { buf = buf; data_offset = at }) ≡ ts
  unfolding tags
  layout-tags at =
      let half : length (tag_lens ts) / 2 ≡ length ts = omega (arith, length-tag_lens ts) in
      rw (type_len_read, tag_count_read, lens_slice, tags_drop, half)
        (collect_tags-layout ts
          (record { data_bytes = tag_bytes ts ++ data_bytes; lens = tag_lens ts; idx = 0 }) []
          data_bytes texts refl refl refl)

-- What a successful Event::new says of its input and of its result.
new-layout :
    (ty : EventType) (ts : Tags) (data_bytes : Bytes) {e : Event}
    → new ty ts data_bytes ≡ ok e
    → (length ts ≤ u16_max)
      × (header_len (length ts) + length ty + tags_total ts ≤ u32_max)
      × (e.buf
          ≡ to_le16 (length ty)
            ++ (to_le16 (length ts) ++ (tag_lens ts ++ (ty ++ (tag_bytes ts ++ data_bytes)))))
      × (e.data_offset ≡ header_len (length ts) + length ty + tags_total ts)
unfolding new
new-layout ty ts data_bytes h = ground arith

-- For a type and ascending tags that are names in valid UTF-8, decoding an encoded event succeeds,
-- and gives back the type, the tags and the payload.
pub from_bytes-new :
    (ty : EventType) (ts : Tags) (data_bytes : Bytes) {e : Event}
    → IsText ty
    → All IsText ts
    → IsAscending ts
    → new ty ts data_bytes ≡ ok e
    → (from_bytes (as_bytes e) ≡ ok (as_ref e))
      × (event_type (as_ref e) ≡ ty)
      × (tags (as_ref e) ≡ ts)
      × (payload (as_ref e) ≡ data_bytes)
from_bytes-new ty ts data_bytes {e} text texts asc h =
    let (few, small, laid, at) = new-layout ty ts data_bytes h in
    (
      rw at (layout-from_bytes ty ts data_bytes e.buf text texts asc few laid small),
      layout-event_type ty ts data_bytes e.buf text texts asc few laid e.data_offset,
      layout-tags ty ts data_bytes e.buf text texts asc few laid e.data_offset,
      rw at (data_drop ty ts data_bytes e.buf text texts asc few laid),
    )
