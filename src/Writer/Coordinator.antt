-- ===== src/Writer/Coordinator.antt =====
-- crates/tephra/src/writer/coordinator.rs: the writer's loop body, from a drained list of requests
-- to the replies.
pub mod Guarantee
pub mod Admit
pub mod Untagged
pub mod Requests
pub mod Serve
pub mod Commit
pub mod Kept
pub mod Process
pub mod Drain
use tephra.Prelude.{
  ℕ, ◌-◌, zero, suc, ◌+◌, ◌≡◌, Bool, true, false, List, [], ◌∷◌, ◌++◌, Option, none, some,
  if◌then◌else◌, ltb, ◌||◌, length, is_empty,
}
use tephra.Prelude.Str.{Bytes}
use tephra.Prelude.Result.{Result, ok, err, ◌>>=◌}
use tephra.Types.Position.{Position, PositionRange}
use tephra.Types.Query.{AppendCondition}
use tephra.Event.{Event}
use tephra.Event.Decode.{from_bytes}
use tephra.Tips.{TagTips}
use tephra.Index.Interface.{SegmentIndex}
use tephra.Index.Tail.{ActiveTail}
use tephra.Index.Set.{IndexSet, push, seal_active}
use tephra.Log.{
  SegmentSet, LogError, record_too_large, batch_too_large, Disk, append_batch, last_position,
  sealed_len,
}
use tephra.Writer.{
  AppendError, conflict, after_beyond_tip, too_large, log, Request, WriterConfig, Message, append,
  shutdown_message,
}
use tephra.Writer.Condition.{EvalCtx, evaluate}
use tephra.Writer.Batch.{
  Batch, measure, marker_bytes, stage, committed_records, AppendReply, commit_ok, commit_err,
}
use tephra.Writer.Batch as Batch

-- The state of the writer thread. `rx` is what the queue holds, `connected` whether a sender is
-- left, and `watermark` and
-- `published_sealed` the tip and the number of sealed segments that the readers were last told.
pub record Worker : Type 0 where
  pub set : SegmentSet
  pub index : IndexSet
  pub tips : TagTips
  pub cfg : WriterConfig
  pub rx : List Message
  pub connected : Bool
  pub pushback : Option Request
  pub shutdown : Bool
  pub watermark : Position
  pub published_sealed : ℕ

-- is_oversized
unfoldable pub is_oversized : Worker → ℕ → ℕ → Bool
is_oversized w record_bytes largest_event =
    ltb w.cfg.max_batch_bytes (marker_bytes + record_bytes)
    || ltb w.set.config.max_record_len largest_event

-- The loop of collect, while the batch has room for `fuel` more requests.
unfoldable pub drain : ℕ → Worker → List Request → ℕ → Worker × List Request
unfolding measure is_oversized
drain zero w reqs bytes = (w, reqs)
drain (suc fuel) w reqs bytes = elim w.rx [
  | [] ↦ (record w { shutdown = if w.connected then w.shutdown else true }, reqs)
  | shutdown_message ∷ rx ↦ (record w { rx = rx; shutdown = true }, reqs)
  | append request ∷ rx ↦
      let size = measure request.events in
      let more = drain fuel (record w { rx = rx }) (reqs ++ request ∷ []) (bytes + size.0) in
      if is_oversized w size.0 size.1 || ltb w.cfg.max_batch_bytes (bytes + size.0)
      then (record w { rx = rx; pushback = some request }, reqs)
      else more
]

-- collect, from the first request on
unfoldable pub collect_from : Worker → Request → Worker × List Request
unfolding drain measure is_oversized
collect_from w request =
    let size = measure request.events in
    if is_oversized w size.0 size.1
    then (w, request ∷ [])
    else drain (w.cfg.max_batch_records - 1) w (request ∷ []) (marker_bytes + size.0)

-- collect: `none` when the coordinator should exit. An empty queue here is one that no sender will
-- fill any more: recv blocks until there is a message or that is so.
unfoldable pub collect : Worker → Worker × Option (List Request)
unfolding collect_from
collect w = elim w.pushback [
  | some request ↦
      let (w', reqs) = collect_from (record w { pushback = none }) request in (w', some reqs)
  | none ↦ elim w.rx [
    | [] ↦ (record w { shutdown = true }, none)
    | shutdown_message ∷ rx ↦ (record w { rx = rx; shutdown = true }, none)
    | append request ∷ rx ↦
        let (w', reqs) = collect_from (record w { rx = rx }) request in (w', some reqs)
  ]
]

-- What a condition is evaluated against.
abbrev pub context : Worker → Batch → EvalCtx
context w batch = record {
  main = w.tips;
  staged = batch.tips;
  index = w.index;
  set = w.set;
  verify = w.cfg.verify_tips;
  force_scan = w.cfg.condition_force_scan;
}

-- The loop body of process up to stage: whether the request may be staged, or what it is told.
unfoldable pub admit : Worker → Batch → Request → Result AppendError (Unit {0})
unfolding evaluate last_position
admit w batch req = elim req.condition [
  | none ↦ ok tt
  | some cond ↦
      if ltb (last_position w.set) cond.after
      then err (after_beyond_tip cond.after (last_position w.set))
      else elim (evaluate (context w batch) cond) [
        | ok found ↦ elim found [ none ↦ ok tt | some c ↦ err (conflict c.0 c.1) ]
        | err e ↦ err e
      ]
]

-- The loop of process over the drained requests: the batch, and the replies to the rejected ones.
unfoldable pub run_requests : Worker → Batch → List Request → Batch × List AppendReply
unfolding admit stage
run_requests w batch [] = (batch, [])
run_requests w batch (req ∷ reqs) =
    let staged = run_requests w (stage batch req.events req.token) reqs in
    let skipped = run_requests w batch reqs in
    elim (admit w batch req) [ ok u ↦ staged | err e ↦ (skipped.0, (req.token, err e) ∷ skipped.1) ]

-- The loop that feeds the committed records to the index; `none` is the panic on bytes that do not
-- decode, or on a position out of order.
unfoldable pub feed_index : IndexSet → List (Position × Bytes) → Option IndexSet
unfolding push from_bytes
feed_index index [] = some index
feed_index index ((position, bytes) ∷ records) = elim (from_bytes bytes) [
  | err e ↦ none
  | ok event ↦ elim (push index position event) [
    | none ↦ none
    | some index' ↦ feed_index index' records
  ]
]

-- classify
unfoldable pub classify : LogError → AppendError
classify (record_too_large size max) = too_large size
classify (batch_too_large size capacity) = too_large size
classify other = log other

-- process, once append_batch has succeeded
unfoldable pub committed :
    (ActiveTail → SegmentIndex)
    → Worker
    → SegmentSet
    → Batch
    → PositionRange
    → Option (Worker × List AppendReply)
unfolding seal_active feed_index committed_records commit_ok last_position
committed sealed_form w set batch range =
    let rolled = ltb (sealed_len w.set) (sealed_len set) in
    let sealed = if rolled then seal_active sealed_form w.index range.first else w.index in
    elim (feed_index sealed (committed_records batch)) [
      | none ↦ none
      | some index ↦
          let (tips, replies) = commit_ok batch w.tips set.next_position in
          some (
            record w {
              set = set;
              index = index;
              tips = tips;
              published_sealed = if rolled then sealed_len set else w.published_sealed;
              watermark = last_position set;
            },
            replies,
          )
    ]

-- process: `none` is a panic of the writer thread
unfoldable pub process :
    (ActiveTail → SegmentIndex) → Worker → Disk → List Request → Option (Worker × List AppendReply)
unfolding run_requests append_batch committed commit_err classify
process sealed_form w disk reqs =
    let (batch, rejected) = run_requests w (Batch.new w.set.next_position) reqs in
    if is_empty batch.records
    then some (w, rejected)
    else let (set, result) = append_batch w.set disk batch.records in
      elim result [
        | ok range ↦ elim (committed sealed_form w set batch range) [
          | none ↦ none
          | some done ↦ some (done.0, rejected ++ done.1)
        ]
        | err e ↦ some (record w { set = set }, rejected ++ commit_err batch (classify e))
      ]
