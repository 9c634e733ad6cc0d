-- ===== src/Writer/Coordinator/Commit.antt =====
-- Worker::process of crates/tephra/src/writer/coordinator.rs: the group commit keeps the log, the
-- index and the tips together, and acknowledges what it appended.
use tephra.Prelude.{
  ◌+◌, ◌<◌, ◌≡◌, refl, sym, ap, ◌∙◌, subst, Bool, true, false, List, [], ◌∷◌, ◌++◌, append_assoc,
  append-nil, some, if◌then◌else◌, length, length-append, arith, inl, inr,
}
use tephra.Prelude.Str.{Bytes}
use tephra.Prelude.Result.{ok, err, Result-cases}
use tephra.Types.Position.{Position, add, add-eq, u64_mod}
use tephra.Event.{EventRef}
use tephra.Event.Sound.{from_bytes-IsAscending}
use tephra.Index.Interface.{SegmentIndex}
use tephra.Index.Tail.{ActiveTail}
use tephra.Index.Set.{IndexSet, seal_active}
use tephra.Index.Set.Held.{concat}
use tephra.Index.Set.Feed.{IsFed, push-IsFed, Faithful, seal_active-IsFed, concat-snoc}
use tephra.Writer.{Request, AppendError}
use tephra.Writer.Condition.Exact.{IsStore, Decoded}
use tephra.Writer.Batch.{
  Batch, Staged, AppendReply, number, committed_records, commit_ok, commit_err, reply_ok, reply_err,
}
use tephra.Writer.Batch as Batch
use tephra.Writer.Coordinator.{Worker, admit, run_requests, feed_index}
use tephra.Writer.Coordinator.Requests.{Serves}
use tephra.Writer.Coordinator.Serve.{run_requests-admitted, run_requests-rejected}

-- Feeding the committed records never stops, and extends what the index holds.
pub feed_index-IsFed :
    (records : List Bytes) (es tail : List EventRef) (parts : List (List EventRef))
    (index : IndexSet) (at : Position)
    → IsFed index parts tail
    → Decoded records es
    → at ≡ 1 + length (concat parts ++ tail)
    → at + length records < u64_mod
    → (index' : IndexSet) × (feed_index index (number at records) ≡ some index')
      × IsFed index' parts (tail ++ es)
unfolding feed_index number
feed_index-IsFed [] [] tail parts index at v d start room =
    (index, refl, subst (IsFed index parts) (sym (append-nil tail)) v)
feed_index-IsFed [] (e ∷ es) tail parts index at v d start room = absurd d
feed_index-IsFed (r ∷ records) [] tail parts index at v d start room = absurd d
feed_index-IsFed (r ∷ records) (e ∷ es) tail parts index at v d start room =
    let (next_index, pushed, fed) =
      push-IsFed index parts tail at e v (from_bytes-IsAscending r e d.0).1 start (omega arith) in
    let step : add at 1 ≡ at + 1 = add-eq at 1 (omega arith) in
    let (last_index, rest, all_fed) =
      feed_index-IsFed records es (tail ++ e ∷ []) parts next_index (add at 1) fed d.1
        (omega (
          arith,
          step,
          start,
          length-append (concat parts) tail,
          length-append (concat parts) (tail ++ e ∷ []),
          length-append tail (e ∷ []),
        ))
        (omega (arith, step)) in
    (
      last_index,
      ground (arith, d.0, pushed, rest),
      subst (IsFed last_index parts) (append_assoc tail (e ∷ []) es) all_fed,
    )

-- The index after the rollover test of a commit.
pub record Sealed (index : IndexSet) (log : List EventRef) : Type 0 where
  pub parts : List (List EventRef)
  pub tail : List EventRef
  pub fed : IsFed index parts tail
  pub content : concat parts ++ tail ≡ log

pub Sealed-if :
    (sealed_form : ActiveTail → SegmentIndex) (index : IndexSet) (parts : List (List EventRef))
    (tail : List EventRef) (rolled : Bool) (at : Position)
    → Faithful sealed_form
    → IsFed index parts tail
    → at ≡ 1 + length (concat parts ++ tail)
    → Sealed (if rolled then seal_active sealed_form index at else index) (concat parts ++ tail)
Sealed-if sealed_form index parts tail true at f v start = record {
  parts = parts ++ tail ∷ [];
  tail = [];
  fed =
      (seal_active-IsFed sealed_form index parts tail at f v
        (omega (arith, start, v.base, length-append (concat parts) tail))).0;
  content = append-nil (concat (parts ++ tail ∷ [])) ∙ concat-snoc parts tail;
}
Sealed-if sealed_form index parts tail false at f v start = record {
  parts = parts;
  tail = tail;
  fed = v;
  content = refl;
}

-- The worker's log, index and tips are of the events `log`.
pub record Serving (w : Worker) (log : List EventRef) : Type 0 where
  pub parts : List (List EventRef)
  pub tail : List EventRef
  pub store : IsStore w.set w.index w.tips parts tail
  pub content : concat parts ++ tail ≡ log

-- The acknowledgements among the replies.
abbrev pub acks_of : List AppendReply → List Staged
acks_of [] = []
acks_of ((token, result) ∷ replies) =
    let rest = acks_of replies in
    elim result [ ok range ↦ record { token = token; range = range } ∷ rest | err e ↦ rest ]

pub acks_of-append : (xs ys : List AppendReply) → acks_of (xs ++ ys) ≡ acks_of xs ++ acks_of ys
acks_of-append [] ys = refl
acks_of-append ((token, ok range) ∷ xs) ys =
    ap (λ l. record { token = token; range = range } ∷ l) (acks_of-append xs ys)
acks_of-append ((token, err e) ∷ xs) ys = acks_of-append xs ys

pub acks_of-reply_ok : (staged : List Staged) → acks_of (reply_ok staged) ≡ staged
acks_of-reply_ok [] = refl
acks_of-reply_ok (s ∷ staged) = ap (λ l. s ∷ l) (acks_of-reply_ok staged)

pub acks_of-reply_err : (e : AppendError) (staged : List Staged) → acks_of (reply_err e staged) ≡ []
acks_of-reply_err e [] = refl
acks_of-reply_err e (s ∷ staged) = acks_of-reply_err e staged

pub run_requests-no_acks :
    (reqs : List Request) (w : Worker) (batch : Batch) → acks_of (run_requests w batch reqs).1 ≡ []
unfolding run_requests
run_requests-no_acks [] w batch = refl
run_requests-no_acks (req ∷ reqs) w batch = elim (Result-cases (admit w batch req)) [
  | inl (u, h) ↦
      ap (λ (r : Batch × List AppendReply). acks_of r.1) (run_requests-admitted w batch req reqs h)
      ∙ run_requests-no_acks reqs w (Batch.stage batch req.events req.token)
  | inr (e, h) ↦
      ap (λ (r : Batch × List AppendReply). acks_of r.1)
        (run_requests-rejected w batch req reqs e h)
      ∙ run_requests-no_acks reqs w batch
]

-- Passing every request over serves them all.
pub none_served : (reqs : List Request) (log : List EventRef) → Serves log reqs log []
none_served [] log = (refl, refl)
none_served (req ∷ reqs) log = inl (none_served reqs log)
