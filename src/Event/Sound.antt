-- ===== src/Event/Sound.antt =====
-- What EventRef::from_bytes of crates/tephra/src/event.rs establishes for the accessors, which do
-- no validation of their own.
use tephra.Prelude.{
  ℕ, zero, suc, ◌+◌, ◌-◌, ◌*◌, ◌/◌, ◌<◌, ◌≤◌, ◌≡◌, refl, sym, ap, subst, true, false, List, [], ◌∷◌,
  Option, none, some, length, get_or, take, drop, length-take, length-drop, All, arith, ltb,
  le→ltb_false,
}
use tephra.Prelude.Str.{Str, Bytes, str_lt_connex}
use tephra.Prelude.Result.{ok}
use tephra.Types.Tags.{IsAscending}
use tephra.Event.{
  EventRef, read_u16, slice, header_len, fixed_header, TagsRef, collect_tags, next_tag, tags,
  event_type,
}
use tephra.Event.Utf8.{is_utf8}
use tephra.Event.Decode.{check_tags, from_bytes, not_above}
use tephra.Event.RoundTrip.{next_tag-step}

module _ {ℓ} {A : Type ℓ} where
  get_or-take :
      (n : ℕ) (xs : List A) (i : ℕ) (d : A) → i < n → get_or (take n xs) i d ≡ get_or xs i d
  get_or-take zero xs i d h = elim h [ ]
  get_or-take (suc n) [] i d h = refl
  get_or-take (suc n) (x ∷ xs) zero d h = refl
  get_or-take (suc n) (x ∷ xs) (suc i) d h = get_or-take n xs i d (omega arith)

  get_or-drop :
      (n : ℕ) (xs : List A) (i j : ℕ) (d : A) → j ≡ n + i → get_or (drop n xs) i d ≡ get_or xs j d
  get_or-drop zero xs i j d h = ap (λ k. get_or xs k d) (omega arith)
  get_or-drop (suc n) [] i j d h = refl
  get_or-drop (suc n) (x ∷ xs) i zero d h = absurd (omega arith)
  get_or-drop (suc n) (x ∷ xs) i (suc j) d h = get_or-drop n xs i j d (omega arith)

  drop-nil : (k : ℕ) → drop {A = A} k [] ≡ []
  drop-nil zero = refl
  drop-nil (suc k) = refl

  drop-drop : (m n : ℕ) (xs : List A) (k : ℕ) → k ≡ m + n → drop n (drop m xs) ≡ drop k xs
  drop-drop zero n xs k h = ap (λ j. drop j xs) (omega arith)
  drop-drop (suc m) zero [] k h = sym (drop-nil k)
  drop-drop (suc m) (suc n) [] k h = sym (drop-nil k)
  drop-drop (suc m) n (x ∷ xs) zero h = absurd (omega arith)
  drop-drop (suc m) n (x ∷ xs) (suc k) h = drop-drop m n xs k (omega arith)

-- The length header, as the tag iterator sees it.
abbrev lens_of : Bytes → ℕ → Bytes
lens_of buf m = slice buf fixed_header (fixed_header + 2 * m)

lens_of-read :
    (buf : Bytes) (m i : ℕ)
    → i < m
    → read_u16 (lens_of buf m) (i * 2) ≡ read_u16 buf (fixed_header + 2 * i)
unfolding read_u16
lens_of-read buf m i h =
    let width : fixed_header + 2 * m - fixed_header ≡ 2 * m = omega arith in
    let rest = drop fixed_header buf in
    rw width (
      omega (
        arith,
        get_or-take (2 * m) rest (i * 2) 0 (omega arith),
        get_or-take (2 * m) rest (i * 2 + 1) 0 (omega arith),
        get_or-drop fixed_header buf (i * 2) (fixed_header + 2 * i) 0 (omega arith),
        get_or-drop fixed_header buf (i * 2 + 1) (fixed_header + 2 * i + 1) 0 (omega arith),
      ))

-- The first tag is not below or at `prev`.
abbrev HeadAbove : Option Str → List Str → Type 0
HeadAbove prev [] = Unit
HeadAbove prev (t ∷ ts) = not_above prev t ≡ false

-- What one successful round of the check loop says.
record Checked (buf : Bytes) (n i pos : ℕ) (prev : Option Str) : Type 0 where
  tag_utf8 : is_utf8 (slice buf pos (pos + read_u16 buf (fixed_header + 2 * i))) ≡ true
  tag_above : not_above prev (slice buf pos (pos + read_u16 buf (fixed_header + 2 * i))) ≡ false
  rest :
      check_tags buf n
        (i + 1)
        (pos + read_u16 buf (fixed_header + 2 * i))
        (some (slice buf pos (pos + read_u16 buf (fixed_header + 2 * i))))
      ≡ ok tt

check_tags-Checked :
    (buf : Bytes) (n i pos : ℕ) (prev : Option Str)
    → check_tags buf (suc n) i pos prev ≡ ok tt
    → Checked buf n i pos prev
unfolding check_tags
check_tags-Checked buf n i pos prev h = ground arith

HeadAbove-IsAscending :
    (t : Str) (ts : List Str) → HeadAbove (some t) ts → IsAscending ts → IsAscending (t ∷ ts)
HeadAbove-IsAscending t [] h asc = tt
HeadAbove-IsAscending t (u ∷ us) h asc = (ground (arith, str_lt_connex t u), asc)

abbrev pub Utf8 : Str → Type 0
Utf8 t = is_utf8 t ≡ true

collect_tags-next :
    (n : ℕ) (r r' : TagsRef) (t : Str)
    → next_tag r ≡ some (t, r')
    → collect_tags (suc n) r ≡ t ∷ collect_tags n r'
unfolding collect_tags
collect_tags-next n r r' t h = ground (arith, h)

-- What the check loop accepts is what the iterator yields: ascending, above `prev`, valid UTF-8.
collect_tags-checked :
    (n : ℕ) (buf : Bytes) (m i pos : ℕ) (prev : Option Str) (r : TagsRef)
    → check_tags buf n i pos prev ≡ ok tt
    → i + n ≡ m
    → r.lens ≡ lens_of buf m
    → length r.lens ≡ 2 * m
    → r.idx ≡ i
    → r.data_bytes ≡ drop pos buf
    → IsAscending (collect_tags n r)
      × HeadAbove prev (collect_tags n r)
      × All Utf8 (collect_tags n r)
unfolding collect_tags
collect_tags-checked zero buf m i pos prev r h k el len ei ed = (tt, tt, tt)
collect_tags-checked (suc n) buf m i pos prev r h k el len ei ed =
    let c = check_tags-Checked buf n i pos prev h in
    let size = read_u16 buf (fixed_header + 2 * i) in
    let tag = slice buf pos (pos + size) in
    let room : ltb (length r.lens) (r.idx * 2 + 2) ≡ false = le→ltb_false _ _ (omega arith) in
    let read : read_u16 r.lens (r.idx * 2) ≡ size =
      rw (el, ei) (lens_of-read buf m i (omega arith)) in
    let width : pos + size - pos ≡ size = omega arith in
    let head : take size r.data_bytes ≡ tag = rw (ed, width) refl in
    let r' : TagsRef = record {
      data_bytes = drop size r.data_bytes;
      lens = r.lens;
      idx = r.idx + 1;
    } in
    let ih =
      collect_tags-checked n buf m (i + 1) (pos + size) (some tag) r' c.rest (omega arith) el len
        (omega arith) (rw ed (drop-drop pos size buf (pos + size) refl)) in
    subst (λ l. IsAscending l × HeadAbove prev l × All Utf8 l)
      (sym (collect_tags-next n r r' tag (next_tag-step r size tag room read head)))
      (HeadAbove-IsAscending tag (collect_tags n r') ih.1 ih.0, c.tag_above, (c.tag_utf8, ih.2))

-- A successful decode keeps the buffer, and passed both loops.
record Decoded (buf : Bytes) (e : EventRef) : Type 0 where
  same_buf : e.buf ≡ buf
  type_there : 0 < read_u16 buf 0
  header_there : header_len (read_u16 buf 2) ≤ length buf
  type_utf8 :
      is_utf8
        (slice buf (header_len (read_u16 buf 2)) (header_len (read_u16 buf 2) + read_u16 buf 0))
      ≡ true
  checks :
      check_tags buf (read_u16 buf 2) 0 (header_len (read_u16 buf 2) + read_u16 buf 0) none ≡ ok tt

from_bytes-Decoded : (buf : Bytes) (e : EventRef) → from_bytes buf ≡ ok e → Decoded buf e
unfolding from_bytes
from_bytes-Decoded buf e h = ground arith

tags-checked :
    (buf : Bytes) (e : EventRef) → Decoded buf e → IsAscending (tags e) × All Utf8 (tags e)
unfolding tags
tags-checked buf e d =
    let n = read_u16 buf 2 in
    let start = header_len n + read_u16 buf 0 in
    let width : fixed_header + 2 * n - fixed_header ≡ 2 * n = omega arith in
    let len : length (lens_of buf n) ≡ 2 * n = omega (
      arith,
      d.header_there,
      length-take (fixed_header + 2 * n - fixed_header) (drop fixed_header buf),
      length-drop fixed_header buf,
    ) in
    let half : length (lens_of buf n) / 2 ≡ n = omega arith in
    let k =
      collect_tags-checked n buf n 0 start none
        (record { data_bytes = drop start buf; lens = lens_of buf n; idx = 0 }) d.checks
        (omega arith) refl len refl refl in
    rw (d.same_buf, half) (k.0, k.2)

-- Whatever bytes decode, the tags come out strictly ascending, and the type and the tags are valid
-- UTF-8.
pub from_bytes-IsAscending :
    (buf : Bytes) (e : EventRef)
    → from_bytes buf ≡ ok e
    → (e.buf ≡ buf) × IsAscending (tags e) × All Utf8 (tags e) × (is_utf8 (event_type e) ≡ true)
unfolding event_type
from_bytes-IsAscending buf e h =
    let d = from_bytes-Decoded buf e h in
    let t = tags-checked buf e d in (d.same_buf, t.0, t.1, rw d.same_buf d.type_utf8)
