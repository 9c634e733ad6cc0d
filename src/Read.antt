-- ===== src/Read.antt =====
-- crates/tephra/src/read/mod.rs: planning a forward read over a snapshot of the log and its indexes.
-- The segments stand for their readers, so that only a position without a record and a record that
-- does not decode are errors.
pub mod Window
pub mod Cap
pub mod Fallback
pub mod Within
pub mod Sealed
pub mod Positions
pub mod Estimate
use tephra.Prelude.{
  ℕ, ◌+◌, ◌-◌, ◌≡◌, Bool, true, false, List, [], ◌∷◌, ◌++◌, Option, none, some, if◌then◌else◌, leb,
  ◌==◌, length, take, min, max,
}
use tephra.Prelude.Str.{Bytes}
use tephra.Prelude.Result.{Result, ok, err, ◌>>=◌, map_err}
use tephra.Types.Position.{Position}
use tephra.Types.Query.{Query}
use tephra.Event.Decode.{DecodeError, from_bytes}
use tephra.Matching.{matches}
use tephra.Index.Interface.{SegmentIndex}
use tephra.Index.Search.{search_after}
use tephra.Index.Tail.{ActiveTail, view}
use tephra.Index.Plan.{Access, estimate_matches, choose}
use tephra.Log.{LogError, Segment, scan}

-- Snapshot: sealed_index is aligned with sealed_log, `none` for a segment without an index.
pub record Snapshot : Type 0 where
  pub sealed_log : List Segment
  pub sealed_index : List (Option SegmentIndex)
  pub active_log : Segment
  pub active_index : ActiveTail

pub data ReadError : Type 0 where
  log : LogError → ReadError
  corrupt : DecodeError → ReadError
  aborted : ReadError

-- first_after
abbrev pub first_after : Position → Position → Position
first_after after base = max after (base - 1) + 1

-- segment_width
abbrev pub segment_width : Position → Position → ℕ → ℕ
segment_width after base effective_max = effective_max + 1 - first_after after base

-- The largest position of a segment that is not empty, clamped to the watermark.
abbrev pub effective_max : Segment → Position → ℕ
effective_max seg wm = min (seg.base_position + length seg.records - 1) wm

-- The loop of estimate_read over the sealed segments: what it adds to the estimate and the width.
unfoldable pub estimate_sealed :
    List Segment → List (Option SegmentIndex) → Query → Position → Position → ℕ × ℕ
unfolding estimate_matches
estimate_sealed [] indexes q after wm = (0, 0)
estimate_sealed (seg ∷ segs) [] q after wm = (0, 0)
estimate_sealed (seg ∷ segs) (index ∷ indexes) q after wm =
    let rest = estimate_sealed segs indexes q after wm in
    let seg_width = segment_width after seg.base_position (effective_max seg wm) in
    let found : ℕ = elim index [
      | some index_seg ↦ estimate_matches index_seg q seg_width
      | none ↦ seg_width
    ] in
    if length seg.records == 0
    then rest
    else if leb (effective_max seg wm) after
    then rest
    else (found + rest.0, seg_width + rest.1)

-- estimate_read: the estimate, capped at the width, and the width
unfoldable pub estimate_read : Snapshot → Query → Position → Position → ℕ × ℕ
unfolding estimate_sealed estimate_matches view
estimate_read s q after wm =
    let sealed = estimate_sealed s.sealed_log s.sealed_index q after wm in
    let seg_width = segment_width after s.active_log.base_position wm in
    let found =
      if s.active_index.unindexable
      then seg_width
      else estimate_matches (view s.active_index wm) q seg_width in
    if leb s.active_log.base_position wm
    then (min (sealed.0 + found) (sealed.1 + seg_width), sealed.1 + seg_width)
    else (min sealed.0 sealed.1, sealed.1)

-- The verdict of Reads::plan_directional.
unfoldable pub access : Snapshot → Query → Position → Position → ℕ → Access
unfolding estimate_read choose
access s q after upto scan_bias = let r = estimate_read s q after upto in choose r.0 r.1 scan_bias

-- Whether what is gathered has met the cap.
abbrev pub reached : Option ℕ → List Position → Bool
reached none out = false
reached (some k) out = leb k (length out)

-- Vec::truncate at the cap
abbrev pub truncate : Option ℕ → List Position → List Position
truncate none out = out
truncate (some k) out = take k out

-- extend_capped
abbrev pub extend_capped : List Position → List Position → Option ℕ → List Position
extend_capped out iter none = out ++ iter
extend_capped out iter (some k) = out ++ take (k - length out) iter

-- Iterator::take_while at or below the watermark
unfoldable pub take_upto : Position → List Position → List Position
take_upto wm [] = []
take_upto wm (p ∷ ps) = let rest = take_upto wm ps in if leb p wm then p ∷ rest else []

-- scan_positions_matching, over the records that the scan yields
unfoldable pub scan_positions_matching :
    List (Position × Bytes) → Query → List Position → Option ℕ → Result ReadError (List Position)
unfolding from_bytes matches
scan_positions_matching [] q out cap = ok out
scan_positions_matching (record' ∷ records) q out cap =
    let found = scan_positions_matching records q (out ++ record'.0 ∷ []) cap in
    let passed = scan_positions_matching records q out cap in
    map_err corrupt (from_bytes record'.1) >>= λ event.
    if matches q event
    then (if reached cap (out ++ record'.0 ∷ []) then ok (out ++ record'.0 ∷ []) else found)
    else passed

-- scan_positions_into
unfoldable pub scan_positions_into :
    Snapshot
    → Query
    → Position
    → Position
    → List Position
    → Option ℕ
    → Result ReadError (List Position)
unfolding scan scan_positions_matching
scan_positions_into s q first upto out cap =
    if reached cap out
    then ok out
    else (map_err log (scan s.sealed_log s.active_log first upto) >>= λ records.
        scan_positions_matching records q out cap)

-- One round of plan_positions' loop, over a sealed segment that the window touches.
unfoldable pub plan_segment :
    Snapshot
    → Segment
    → Option SegmentIndex
    → Query
    → Position
    → Position
    → List Position
    → Option ℕ
    → Result ReadError (List Position)
unfolding search_after take_upto scan_positions_into
plan_segment s seg index q after wm out cap = elim index [
  | some index_seg ↦ ok (extend_capped out (take_upto wm (search_after index_seg q after)) cap)
  | none ↦
      scan_positions_into s q (first_after after seg.base_position) (effective_max seg wm) out cap
]

-- The loop of plan_positions: what it gathers, and whether it returned at the cap.
unfoldable pub plan_sealed :
    Snapshot
    → List Segment
    → List (Option SegmentIndex)
    → Query
    → Position
    → Position
    → List Position
    → Option ℕ
    → Result ReadError (Bool × List Position)
unfolding plan_segment
plan_sealed s [] indexes q after wm out cap = ok (false, out)
plan_sealed s (seg ∷ segs) [] q after wm out cap = ok (false, out)
plan_sealed s (seg ∷ segs) (index ∷ indexes) q after wm out cap =
    let skipped = plan_sealed s segs indexes q after wm out cap in
    if length seg.records == 0
    then skipped
    else if leb (effective_max seg wm) after
    then skipped
    else (plan_segment s seg index q after wm out cap >>= λ out'.
        if reached cap out'
        then ok (true, truncate cap out')
        else plan_sealed s segs indexes q after wm out' cap)

-- plan_positions from the active segment on
unfoldable pub plan_active :
    Snapshot
    → Query
    → Position
    → Position
    → List Position
    → Option ℕ
    → Result ReadError (List Position)
unfolding scan_positions_into search_after view
plan_active s q after wm out cap =
    let base = s.active_log.base_position in
    if leb base wm
    then if s.active_index.unindexable
      then scan_positions_into s q (first_after after base) wm out cap
      else ok (extend_capped out (search_after (view s.active_index wm) q after) cap)
    else ok out

-- plan_positions
unfoldable pub plan_positions :
    Snapshot → Query → Position → Position → Option ℕ → Result ReadError (List Position)
unfolding plan_sealed plan_active
plan_positions s q after wm limit =
    plan_sealed s s.sealed_log s.sealed_index q after wm [] limit >>= λ r.
    if r.0 then ok r.1 else (plan_active s q after wm r.1 limit >>= λ out. ok (truncate limit out))
