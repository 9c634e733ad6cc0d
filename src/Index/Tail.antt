-- ===== src/Index/Tail.antt =====
-- ActiveTail of crates/tephra/src/index/tail.rs: the index over the growing segment, as the writer
-- feeds it. A ChunkedVec is the list of what was pushed, a PostingSlot the list of its locals.
pub mod Slots
pub mod Terms
pub mod Types
pub mod Feed
pub mod Visible
pub mod View
pub mod Names
use tephra.Prelude.{
  ℕ, zero, suc, ◌+◌, ◌-◌, ◌*◌, ◌/◌, ◌≡◌, Bool, true, false, List, [], ◌∷◌, ◌++◌, Option, none, some,
  if◌then◌else◌, ltb, leb, ◌==◌, length, get_or, get_elem?, min, max,
}
use tephra.Prelude.Str.{Str}
use tephra.Prelude.Result.{Result, ok, err, ◌>>=◌}
use tephra.Types.Position.{Position, add, u16_max, u32_max}
use tephra.Event.{EventRef, event_type, tags}
use tephra.Tips.MaxMap.{lookup}
use tephra.Index.Interface.{SegmentIndex}
use tephra.Index.Interner.{Interner}

pub record ActiveTail : Type 0 where
  pub base : Position
  pub type_column : List ℕ
  pub postings : List (List ℕ)
  pub tag_ids : Interner
  pub type_ids : Interner
  pub unindexable : Bool

-- The assertion on the feed order stops the program; TooManyTypes is returned.
pub data PushError : Type 0 where
  fed_out_of_order : PushError
  too_many_types : ℕ → PushError

-- ActiveTail::new
unfoldable pub new : Position → ActiveTail
new base = record {
  base = base;
  type_column = [];
  postings = [];
  tag_ids = [];
  type_ids = [];
  unindexable = false;
}

-- intern_type
unfoldable pub intern_type : ActiveTail → Str → Result PushError (ActiveTail × ℕ)
unfolding lookup
intern_type t name =
    let next = length t.type_ids in
    elim (lookup name t.type_ids) [
      | some id ↦ ok (t, id)
      | none ↦
          if ltb u16_max next
          then err (too_many_types (u16_max + 1))
          else ok (record t { type_ids = (name, next) ∷ t.type_ids }, next)
    ]

-- intern_tag: a new tag gets an empty posting slot
unfoldable pub intern_tag : ActiveTail → Str → ActiveTail × ℕ
unfolding lookup
intern_tag t tag =
    let next = length t.postings in
    elim (lookup tag t.tag_ids) [
      | some id ↦ (t, id)
      | none ↦
          (record t { postings = t.postings ++ [] ∷ []; tag_ids = (tag, next) ∷ t.tag_ids }, next)
    ]

-- PostingSlot::push_local, at the slot `id`
unfoldable pub push_local : List (List ℕ) → ℕ → ℕ → List (List ℕ)
push_local [] id local = []
push_local (slot ∷ slots) zero local = (slot ++ local ∷ []) ∷ slots
push_local (slot ∷ slots) (suc id) local = slot ∷ push_local slots id local

-- The loop of `push` over the event's tags.
unfoldable pub index_tags : ActiveTail → List Str → ℕ → ActiveTail
unfolding intern_tag push_local
index_tags t [] local = t
index_tags t (tag ∷ ts) local =
    let (t', id) = intern_tag t tag in
    index_tags (record t' { postings = push_local t'.postings id local }) ts local

-- ActiveTail::push
unfoldable pub push : ActiveTail → Position → EventRef → Result PushError ActiveTail
unfolding intern_type index_tags add
push t position e =
    let local = length t.type_column in
    if position == add t.base local
    then (intern_type t (event_type e) >>= λ r.
        let (t', type_id) = r in
        let t'' = index_tags t' (tags e) local in
        ok (record t'' { type_column = t''.type_column ++ type_id ∷ [] }))
    else err fed_out_of_order

-- ActiveTail::mark_unindexable
abbrev pub mark_unindexable : ActiveTail → ActiveTail
mark_unindexable t = record t { unindexable = true }

-- PostingSlot::collect_below: the ascending locals up to the first at or past `upto`
unfoldable pub collect_below : List ℕ → ℕ → List ℕ
collect_below [] upto = []
collect_below (local ∷ slot) upto =
    let rest = collect_below slot upto in if leb upto local then [] else local ∷ rest

-- ActiveView::term_postings
unfoldable pub term_postings : ActiveTail → ℕ → Str → Option (List ℕ)
unfolding lookup collect_below
term_postings t upto tag = elim (lookup tag t.tag_ids) [
  | none ↦ none
  | some id ↦ elim (get_elem? t.postings id) [
    | none ↦ none
    | some slot ↦ some (collect_below slot upto)
  ]
]

-- ActiveView::term_len
unfoldable pub term_len : ActiveTail → ℕ → Str → Option ℕ
unfolding lookup
term_len t upto tag = elim (lookup tag t.tag_ids) [
  | none ↦ none
  | some id ↦ elim (get_elem? t.postings id) [
    | none ↦ none
    | some slot ↦ some (min (length slot) upto)
  ]
]

-- The slots that a ChunkedVec of `n` elements can address: whole chunks, grown by doubling
-- (ChunkedVec::ensure, Snap::covered of append.rs).
abbrev pub chunk : ℕ
chunk = 1024

unfoldable pub chunks : ℕ → ℕ
chunks zero = 0
chunks (suc n) =
    let before = chunks n in
    let need = n / chunk + 1 in if leb need before then before else max need (before * 2)

unfoldable pub covered : ℕ → ℕ
unfolding chunks
covered n = chunks n * chunk

-- make_view, with the trait's functions on the view
unfoldable pub make_view : ActiveTail → ℕ → SegmentIndex
unfolding term_postings term_len lookup covered
make_view t upto = record {
  base = t.base;
  len = min upto (covered (length t.type_column));
  term_postings = term_postings t (min upto (covered (length t.type_column)));
  term_len = term_len t (min upto (covered (length t.type_column)));
  type_id = λ name. lookup name t.type_ids;
  type_at = λ local. get_or t.type_column local 0;
}

-- view_full
unfoldable pub view_full : ActiveTail → SegmentIndex
unfolding make_view
view_full t = make_view t (length t.type_column)

-- visible_len and view
unfoldable pub visible_len : ActiveTail → Position → ℕ
visible_len t watermark = if leb t.base watermark then min (watermark - t.base + 1) u32_max else 0

unfoldable pub view : ActiveTail → Position → SegmentIndex
unfolding make_view visible_len
view t watermark = make_view t (visible_len t watermark)
