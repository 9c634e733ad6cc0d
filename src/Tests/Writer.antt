-- ===== src/Tests/Writer.antt =====
-- Tests of the write coordinator.
use tephra.Prelude.{◌+◌, ◌-◌, ◌≡◌, refl, true, false, [], ◌∷◌, ◌++◌, none, arith, inl}
use tephra.Prelude.Result.{ok, err}
use tephra.Event.{as_ref, as_bytes, event_type, tags}
use tephra.Tips.{TagTips, StagedTips, absorb, may_conflict}
use tephra.Tips as Tips
use tephra.Tips.Durable.{new-IsTips}
use tephra.Index.Tail.{ActiveTail}
use tephra.Index.Tail as Tail
use tephra.Index.Tail.View.{feed, feed-TailOf, new-TailOf}
use tephra.Index.Set.{IndexSet, first}
use tephra.Log.{SegmentSet, Disk, append_batch, refused, write_failed, check_records, total_size}
use tephra.Writer.{append, conflict, boundary, same_batch, default_config}
use tephra.Writer.Condition.{clauses, evaluate}
use tephra.Writer.Condition.Exact.{IsStore, placed_events, verdict, evaluate-eq-verdict}
use tephra.Writer.Batch.{Batch, stage}
use tephra.Writer.Batch as Batch
use tephra.Writer.Batch.Stage.{Holds, new-Holds, stage-Holds}
use tephra.Writer.Coordinator.{Worker, admit, context, collect, run_requests}
use tephra.Writer.Coordinator.Guarantee.{Satisfied, admit-Satisfied}
use tephra.Writer.Coordinator.Drain.{Taken, collect-Taken}
use tephra.Log.Rollover.{rolled}
use tephra.Tests.{
  ab, tag_t, opened, if_new, open_request, two_opens, empty_log, small_config, good_disk,
}
use tephra.Tests.Events.{opened_ascends, opened_decodes}
use tephra.Tests.Index.{no_index, no_index-IsFed}
use tephra.Tests.Log.{empty_log-IsLog}

abbrev pub idle : Worker
idle = record {
  set = empty_log;
  index = no_index;
  tips = Tips.new 1 100;
  cfg = default_config;
  rx = append (open_request 7) ∷ append (open_request 8) ∷ [];
  connected = true;
  pushback = none;
  shutdown = false;
  watermark = 0;
  published_sealed = 0;
}

pub empty-IsStore : IsStore empty_log no_index (Tips.new 1 100) [] []
empty-IsStore = record {
  is_log = empty_log-IsLog;
  decoded = tt;
  fed = no_index-IsFed;
  bounded = new-IsTips 1 100 [] tt;
}

abbrev one_record : SegmentSet
one_record = record {
  config = small_config;
  sealed = [];
  active = record { base_position = 1; records = as_bytes opened ∷ [] };
  write_offset = 99;
  next_position = 2;
  file = as_bytes opened ∷ [];
  pending = [];
  torn = false;
}

abbrev tail_of_one : ActiveTail
tail_of_one = record {
  base = 1;
  type_column = 0 ∷ [];
  postings = (0 ∷ []) ∷ [];
  tag_ids = (tag_t, 0) ∷ [];
  type_ids = (ab, 0) ∷ [];
  unindexable = false;
}

tail_of_one-feed : feed (Tail.new 1) 1 (as_ref opened ∷ []) ≡ ok tail_of_one
unfolding feed Tail.new tags event_type Tail.push
tail_of_one-feed = refl

abbrev one_index : IndexSet
one_index = record {
  sealed = [];
  active = tail_of_one;
  active_base = 1;
  active_span = 1;
  active_unindexable = false;
}

-- A worker whose log has the guarded event already.
abbrev busy : Worker
busy = record idle { set = one_record; index = one_index; tips = Tips.new 2 100 }

busy-IsStore : IsStore one_record one_index (Tips.new 2 100) [] (as_ref opened ∷ [])
busy-IsStore = record {
  is_log = record {
    contiguous = (refl, refl);
    small = omega arith;
    offset = omega arith;
    header = omega arith;
    file = refl;
    pending = refl;
    torn = refl;
  };
  decoded = (opened_decodes, tt);
  fed = record {
    sealed = tt;
    base = refl;
    span = refl;
    active = λ u. (
      feed-TailOf (as_ref opened ∷ []) [] (Tail.new 1) tail_of_one 1 (new-TailOf 1)
          (opened_ascends, tt) tail_of_one-feed,
      refl,
    );
  };
  bounded = new-IsTips 2 100 (placed_events 1 (as_ref opened ∷ [])) (omega arith, tt);
}

evaluate-eq-verdict_example :
    evaluate (context busy (Batch.new 2)) if_new
    ≡ ok (verdict (context busy (Batch.new 2)) ([] ++ as_ref opened ∷ []) (clauses if_new))
evaluate-eq-verdict_example =
    evaluate-eq-verdict (context busy (Batch.new 2)) [] (as_ref opened ∷ []) if_new busy-IsStore
      ((tt, tt), ((tt, tt), tt))

admitted : admit idle (Batch.new 1) (open_request 7) ≡ ok tt
unfolding admit Batch.new Tips.new Tail.new
admitted = refl

admit-Satisfied_example : Satisfied (([] ++ []) ++ []) if_new
admit-Satisfied_example =
    admit-Satisfied idle (Batch.new 1) [] [] [] 1 (open_request 7) if_new empty-IsStore
      ((tt, tt), ((tt, tt), tt)) refl (new-Holds 1) (inl tt, (inl tt, tt)) admitted

collect-Taken_example : Taken idle (collect idle).0 (collect idle).1
collect-Taken_example = collect-Taken idle (omega arith)

stage-Holds_example :
    Holds
      (stage (Batch.new 1) (opened ∷ []) 7)
      ([] ++ as_ref opened ∷ [])
      (stage (Batch.new 1) (opened ∷ []) 7).next
    × ((stage (Batch.new 1) (opened ∷ []) 7).first ≡ (Batch.new 1).first)
    × ((stage (Batch.new 1) (opened ∷ []) 7).next ≡ (Batch.new 1).next + 1)
    × ((stage (Batch.new 1) (opened ∷ []) 7).staged
        ≡ (Batch.new 1).staged
          ++ record {
            token = 7;
            range = record { first = (Batch.new 1).next; last = (Batch.new 1).next + 1 - 1 };
          }
            ∷ [])
unfolding Batch.new
stage-Holds_example =
    stage-Holds (Batch.new 1) [] (opened ∷ []) 7 (new-Holds 1) (opened_decodes, tt) (omega arith)

abbrev staged_one : Batch
staged_one = stage (Batch.new 1) (opened ∷ []) 7

staged_one-Holds : Holds staged_one (as_ref opened ∷ []) staged_one.next
unfolding Batch.new
staged_one-Holds =
    (stage-Holds (Batch.new 1) [] (opened ∷ []) 7 (new-Holds 1) (opened_decodes, tt)
      (omega arith)).0

-- One of the requests is appended, the other told of the first.
second_told :
    run_requests idle (Batch.new 1) two_opens
    ≡ (staged_one, (8, err (conflict boundary same_batch)) ∷ [])
unfolding run_requests Batch.new Tips.new Tail.new tags
second_told = refl

-- A log with too little room left for another event.
abbrev full_log : SegmentSet
full_log = record empty_log { write_offset = 230 }

abbrev failing_disk : Disk
failing_disk = record good_disk { appends = refused ∷ [] }

-- The write fails after the rollover: the log has a sealed segment more.
rolled_unsealed :
    append_batch full_log failing_disk (as_bytes opened ∷ []) ≡ (rolled full_log, err write_failed)
unfolding append_batch check_records total_size
rolled_unsealed = refl
