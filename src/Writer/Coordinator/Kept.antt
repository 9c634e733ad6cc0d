-- ===== src/Writer/Coordinator/Kept.antt =====
-- Worker::process of crates/tephra/src/writer/coordinator.rs: a worker whose log, index and tips agree
-- is left so by a refused batch and by a committed one.
use tephra.Prelude.{
  ◌+◌, ◌≡◌, sym, ap, ◌∙◌, subst, List, [], ◌++◌, append_assoc, some, if◌then◌else◌, length, arith,
  inl, inr, ltb,
}
use tephra.Types.Position.{PositionRange}
use tephra.Event.{EventRef}
use tephra.Tips.{absorb}
use tephra.Tips.MaxMap.{AllFrom}
use tephra.Tips.Durable.{IsTips, absorb-IsTips}
use tephra.Index.Interface.{SegmentIndex}
use tephra.Index.Tail.{ActiveTail}
use tephra.Index.Set.{IndexSet, seal_active}
use tephra.Index.Set.Held.{concat}
use tephra.Index.Set.Feed.{Faithful}
use tephra.Log.{SegmentSet, segments, sealed_len, last_position}
use tephra.Log.Scan.{Contiguous-end}
use tephra.Log.Rollover.{log_of}
use tephra.Log.Append.{Appended, Untouched}
use tephra.Writer.{Request}
use tephra.Writer.Condition.Exact.{
  Decoded, Decoded-append, Decoded-length, placed_events, placed_events-append,
}
use tephra.Writer.Batch.{Batch, AppendReply, committed_records, commit_ok, reply_ok}
use tephra.Writer.Batch.Stage.{Holds}
use tephra.Writer.Coordinator.{Worker, feed_index, committed}
use tephra.Writer.Coordinator.Requests.{Checkable, Serves}
use tephra.Writer.Coordinator.Serve.{Covering}
use tephra.Writer.Coordinator.Commit.{feed_index-IsFed, Sealed-if, Serving, acks_of}

-- What a window of requests has become.
pub record Processed (w' : Worker) (replies : List AppendReply) (log : List EventRef)
    (reqs : List Request) : Type 0 where
  pub log' : List EventRef
  pub serving : Serving w' log'
  pub served : Serves log reqs log' (acks_of replies)

abbrev pub after_commit : Worker → SegmentSet → IndexSet → Batch → Worker
after_commit w set index batch = record w {
  set = set;
  index = index;
  tips = absorb w.tips batch.tips set.next_position;
  published_sealed =
      if ltb (sealed_len w.set) (sealed_len set) then sealed_len set else w.published_sealed;
  watermark = last_position set;
}

pub committed-eq :
    (sealed_form : ActiveTail → SegmentIndex) (w : Worker) (set : SegmentSet) (batch : Batch)
    (range : PositionRange) (index : IndexSet)
    → feed_index
        (if ltb (sealed_len w.set) (sealed_len set)
          then seal_active sealed_form w.index range.first
          else w.index)
        (committed_records batch)
      ≡ some index
    → committed sealed_form w set batch range
      ≡ some (after_commit w set index batch, reply_ok batch.staged)
unfolding committed commit_ok
committed-eq sealed_form w set batch range index h = ground (arith, h)

pub start-Covering : (reqs : List Request) → Checkable reqs → Covering [] reqs
start-Covering reqs (inl h) = inl (tt, h)
start-Covering reqs (inr h) = inr h

-- A batch that the log refused leaves the worker serving the same events.
pub refused-Serving :
    (w : Worker) (set : SegmentSet) (log : List EventRef)
    → Serving w log
    → Untouched w.set set
    → Serving (record w { set = set }) log
refused-Serving w set log s u = record {
  parts = s.parts;
  tail = s.tail;
  content = s.content;
  store = record {
    is_log = u.is_log;
    decoded = subst (λ l. Decoded l (concat s.parts ++ s.tail)) (sym u.content) s.store.decoded;
    fed = s.store.fed;
    bounded =
        subst (λ n. IsTips w.tips n (placed_events 1 (concat s.parts ++ s.tail))) (sym u.same_next)
          s.store.bounded;
  };
}

pub next-eq-length :
    (w : Worker) (log : List EventRef) → Serving w log → w.set.next_position ≡ 1 + length log
next-eq-length w log s = omega (
  arith,
  Contiguous-end (segments w.set) 1 w.set.next_position s.store.is_log.contiguous,
  Decoded-length (log_of w.set) (concat s.parts ++ s.tail) s.store.decoded,
  ap length s.content,
)

-- A committed batch leaves it serving the events of the batch behind them.
pub committed-Serving :
    (sealed_form : ActiveTail → SegmentIndex) (w : Worker) (set : SegmentSet) (batch : Batch)
    (range : PositionRange) (log more : List EventRef)
    → Faithful sealed_form
    → Serving w log
    → Holds batch more batch.next
    → batch.first ≡ w.set.next_position
    → Appended w.set set batch.records range
    → (index : IndexSet) × (feed_index
          (if ltb (sealed_len w.set) (sealed_len set)
            then seal_active sealed_form w.index range.first
            else w.index)
          (committed_records batch)
        ≡ some index)
      × Serving (after_commit w set index batch) (log ++ more)
unfolding committed_records
committed-Serving sealed_form w set batch range log more f s v first a =
    let es = concat s.parts ++ s.tail in
    let start : w.set.next_position ≡ 1 + length es =
      next-eq-length w log s ∙ ap (λ l. 1 + length l) (sym s.content) in
    let r =
      Sealed-if sealed_form w.index s.parts s.tail (ltb (sealed_len w.set) (sealed_len set))
        range.first f s.store.fed (a.from ∙ start) in
    let (index, fed_all, fed) =
      feed_index-IsFed batch.records more r.tail r.parts
        (if ltb (sealed_len w.set) (sealed_len set)
          then seal_active sealed_form w.index range.first
          else w.index)
        batch.first r.fed v.decoded (first ∙ start ∙ ap (λ l. 1 + length l) (sym r.content))
        (omega (arith, first, a.advanced, a.is_log.small)) in
    let joined : concat r.parts ++ (r.tail ++ more) ≡ es ++ more =
      sym (append_assoc (concat r.parts) r.tail more) ∙ ap (λ l. l ++ more) r.content in
    let placed_more : placed_events 1 (es ++ more)
        ≡ placed_events 1 es ++ placed_events batch.first more =
      placed_events-append 1 es more
      ∙ ap (λ n. placed_events 1 es ++ placed_events n more) (sym (first ∙ start)) in
    (
      index,
      fed_all,
      record {
        parts = r.parts;
        tail = r.tail ++ more;
        content = joined ∙ ap (λ l. l ++ more) s.content;
        store = record {
          is_log = a.is_log;
          decoded =
              subst (λ l. Decoded (log_of set) l) (sym joined)
                (subst (λ l. Decoded l (es ++ more)) (sym a.content)
                  (Decoded-append (log_of w.set) batch.records es more s.store.decoded v.decoded));
          fed = fed;
          bounded =
              subst
                (λ l.
                  IsTips (absorb w.tips batch.tips set.next_position) set.next_position
                    (placed_events 1 l))
                (sym joined)
                (subst (IsTips (absorb w.tips batch.tips set.next_position) set.next_position)
                  (sym placed_more)
                  (absorb-IsTips w.tips batch.tips w.set.next_position set.next_position
                    (placed_events 1 es) (placed_events batch.first more) s.store.bounded
                    (omega (arith, a.advanced))
                    (subst (λ n. AllFrom n batch.tips.tag_positions) first v.from) v.known));
        };
      },
    )
