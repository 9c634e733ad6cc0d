-- ===== src/Writer/Coordinator/Process.antt =====
-- Worker::process of crates/tephra/src/writer/coordinator.rs refines the serving of requests in turn.
use tephra.Prelude.{◌+◌, ◌<◌, ◌≡◌, ◌⊎◌, refl, true, false, List, [], ◌∷◌, is_empty, All}
use tephra.Prelude.Str.{Bytes}
use tephra.Prelude.Result.{Result}
use tephra.Types.Position.{PositionRange, u64_mod}
use tephra.Event.{EventRef}
use tephra.Index.Interface.{SegmentIndex}
use tephra.Index.Tail.{ActiveTail}
use tephra.Index.Set.Feed.{Faithful}
use tephra.Log.{SegmentSet, LogError, Disk, append_batch}
use tephra.Log.Write.{tears_first}
use tephra.Log.Append.{Wedged}
use tephra.Writer.{Request}
use tephra.Writer.Condition.Exact.{Decoded}
use tephra.Writer.Batch.{Batch, Staged, AppendReply, committed_records, commit_ok}
use tephra.Writer.Batch as Batch
use tephra.Writer.Coordinator.{Worker, run_requests}
use tephra.Writer.Coordinator.Requests.{IsRequest, Checkable, total_events}
use tephra.Writer.Coordinator.Commit.{Serving, acks_of}

-- Writing failed and what stands in the stream could not be undone: nothing is acknowledged, and
-- the view in memory, the index and the tips are as they were.
pub record Stuck (w : Worker) (disk : Disk) (w' : Worker) (replies : List AppendReply)
    : Type 0 where
  pub wedged : Wedged w.set w'.set
  pub cause : (tears_first disk.appends ≡ true) ⊎ (disk.rewound ≡ false)
  pub index : w'.index ≡ w.index
  pub tips : w'.tips ≡ w.tips
  pub silent : acks_of replies ≡ []

module _ (sealed_form : ActiveTail → SegmentIndex) (w : Worker) (disk : Disk)
    (reqs : List Request) where
  abbrev ran : Batch × List AppendReply
  ran = run_requests w (Batch.new w.set.next_position) reqs

  abbrev appended : SegmentSet × Result LogError PositionRange
  appended = append_batch w.set disk ran.0.records

empty_batch :
    (records : List Bytes) (es : List EventRef)
    → Decoded records es
    → is_empty records ≡ true
    → es ≡ []
empty_batch [] [] d h = refl
empty_batch [] (e ∷ es) d h = absurd d
empty_batch (r ∷ records) es d h = cc

module _ (sealed_form : ActiveTail → SegmentIndex) (w : Worker) (disk : Disk) (reqs : List Request)
    (log : List EventRef) (f : Faithful sealed_form) (s : Serving w log)
    (ok_reqs : All IsRequest reqs) (checkable : Checkable reqs)
    (room : w.set.next_position + total_events reqs < u64_mod) where
  abbrev after_run : Batch
  after_run = (run_requests w (Batch.new w.set.next_position) reqs).0

  abbrev rejections : List AppendReply
  rejections = (run_requests w (Batch.new w.set.next_position) reqs).1
