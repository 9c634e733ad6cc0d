-- ===== src/Writer/Batch.antt =====
-- crates/tephra/src/writer/batch.rs: the accepted requests of one drain window.
pub mod Stage
use tephra.Prelude.{
  ℕ, zero, suc, ◌+◌, ◌-◌, ◌≡◌, Bool, true, false, List, [], ◌∷◌, ◌++◌, if◌then◌else◌, ltb, length,
  is_empty, map,
}
use tephra.Prelude.Str.{Str, Bytes}
use tephra.Prelude.Result.{Result, ok, err}
use tephra.Types.Position.{Position, PositionRange, next, add}
use tephra.Event.{Event, as_bytes, as_ref, tags}
use tephra.Tips.{TagTips, StagedTips, no_staged, record_tag, absorb}
use tephra.Log.{record_overhead, batch_overhead}
use tephra.Writer.{AppendError}

-- measure: the framed bytes of a request's events, and the largest of them
unfoldable pub measure_from : List Event → ℕ → ℕ → ℕ × ℕ
measure_from [] total largest = (total, largest)
measure_from (event ∷ events) total largest =
    let framed = record_overhead + length (as_bytes event) in
    measure_from events (total + framed) (if ltb largest framed then framed else largest)

unfoldable pub measure : List Event → ℕ × ℕ
unfolding measure_from
measure events = measure_from events 0 0

abbrev pub marker_bytes : ℕ
marker_bytes = batch_overhead

-- A staged request: its reply, and the range that it was assigned.
pub record Staged : Type 0 where
  pub token : ℕ
  pub range : PositionRange

pub record Batch : Type 0 where
  pub records : List Bytes
  pub staged : List Staged
  pub tips : StagedTips
  pub first : Position
  pub next : Position

-- Batch::new
unfoldable pub new : Position → Batch
new at = record { records = []; staged = []; tips = no_staged; first = at; next = at }

-- The inner loop of stage: a staged event's tags.
unfoldable pub record_tags : StagedTips → List Str → Position → StagedTips
unfolding record_tag
record_tags tips [] p = tips
record_tags tips (tag ∷ ts) p = record_tags (record_tag tips tag p) ts p

-- The outer loop of stage, with the position that it reaches.
unfoldable pub stage_events : Batch → List Event → Position → Batch × Position
unfolding record_tags tags next
stage_events batch [] p = (batch, p)
stage_events batch (event ∷ events) p =
    stage_events
      (record batch {
        records = batch.records ++ as_bytes event ∷ [];
        tips = record_tags batch.tips (tags (as_ref event)) p;
      })
      events (next p)

-- stage
unfoldable pub stage : Batch → List Event → ℕ → Batch
unfolding stage_events
stage batch events token =
    let (filled, p) = stage_events batch events batch.next in
    record filled {
      next = p;
      staged =
          filled.staged
          ++ record { token = token; range = record { first = batch.next; last = p - 1 } } ∷ [];
    }

-- committed_records: each record at its position
unfoldable pub number : Position → List Bytes → List (Position × Bytes)
unfolding add
number at [] = []
number at (r ∷ records) = (at, r) ∷ number (add at 1) records

unfoldable pub committed_records : Batch → List (Position × Bytes)
unfolding number
committed_records batch = number batch.first batch.records

abbrev pub AppendReply : Type 0
AppendReply = ℕ × Result AppendError PositionRange

abbrev pub reply_ok : List Staged → List AppendReply
reply_ok [] = []
reply_ok (s ∷ staged) = (s.token, ok s.range) ∷ reply_ok staged

abbrev pub reply_err : AppendError → List Staged → List AppendReply
reply_err e [] = []
reply_err e (s ∷ staged) = (s.token, err e) ∷ reply_err e staged

-- commit_ok: the staged tips are absorbed, and each request hears its range
unfoldable pub commit_ok : Batch → TagTips → Position → TagTips × List AppendReply
unfolding absorb
commit_ok batch main next_position = (absorb main batch.tips next_position, reply_ok batch.staged)

-- commit_err: each request hears the error
unfoldable pub commit_err : Batch → AppendError → List AppendReply
commit_err batch e = reply_err e batch.staged
