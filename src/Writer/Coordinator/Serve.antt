-- ===== src/Writer/Coordinator/Serve.antt =====
-- The loop of Worker::process (crates/tephra/src/writer/coordinator.rs) serves the requests of a
-- window one after the other, as if each were appended before the next is looked at.
use tephra.Prelude.{
  ℕ, ◌+◌, ◌-◌, ◌≤◌, ◌<◌, ◌≡◌, ◌⊎◌, refl, sym, ap, ◌∙◌, subst, List, [], ◌∷◌, ◌++◌, append_assoc,
  append-nil, length, length-append, All, arith, inl, inr,
}
use tephra.Prelude.Result.{ok, err, Result-cases}
use tephra.Types.Position.{u64_mod}
use tephra.Event.{EventRef}
use tephra.Tips.Staged.{IsTagged}
use tephra.Index.Set.Held.{concat}
use tephra.Writer.{Request, AppendError}
use tephra.Writer.Condition.Exact.{IsStore}
use tephra.Writer.Batch.{Batch, Staged, AppendReply, stage}
use tephra.Writer.Batch.Stage.{Holds, refs, stage-Holds}
use tephra.Writer.Coordinator.{Worker, admit, run_requests}
use tephra.Writer.Coordinator.Guarantee.{Clause}
use tephra.Writer.Coordinator.Requests.{
  acked_at, ack, Serves, AllClauses, IsRequest, TaggedEvents, total_events, TaggedEvents-append,
  admit-Guard, length-refs,
}

-- The batch that the loop leaves: what it holds was served.
pub record Ran (w : Worker) (log staged : List EventRef) (reqs : List Request)
    (batch batch' : Batch) : Type 0 where
  pub more : List EventRef
  pub holds : Holds batch' (staged ++ more) batch'.next
  pub acks : List Staged
  pub acked : batch'.staged ≡ batch.staged ++ acks
  pub served : Serves (log ++ staged) reqs (log ++ (staged ++ more)) acks
  pub same_first : batch'.first ≡ batch.first
  pub bound : length more ≤ total_events reqs

-- The staged events carry tags and so do those to come, or the conditions to come require them.
abbrev pub Covering : List EventRef → List Request → Type 0
Covering staged reqs =
    (TaggedEvents staged × All (λ (req : Request). TaggedEvents (refs req.events)) reqs)
    ⊎ All (λ (req : Request). AllClauses (λ (c : Clause). IsTagged c.1) req.condition) reqs

pub run_requests-admitted :
    (w : Worker) (batch : Batch) (req : Request) (reqs : List Request)
    → admit w batch req ≡ ok tt
    → run_requests w batch (req ∷ reqs) ≡ run_requests w (stage batch req.events req.token) reqs
unfolding run_requests
run_requests-admitted w batch req reqs h = ground (arith, h)

abbrev pub told : ℕ → AppendError → AppendReply
told token e = (token, err e)

pub run_requests-rejected :
    (w : Worker) (batch : Batch) (req : Request) (reqs : List Request) (e : AppendError)
    → admit w batch req ≡ err e
    → run_requests w batch (req ∷ reqs)
      ≡ ((run_requests w batch reqs).0, told req.token e ∷ (run_requests w batch reqs).1)
unfolding run_requests
run_requests-rejected w batch req reqs e h = ground (arith, h)

Covering-tail :
    (staged : List EventRef) (req : Request) (reqs : List Request)
    → Covering staged (req ∷ reqs)
    → Covering staged reqs
Covering-tail staged req reqs (inl h) = inl (h.0, h.1.1)
Covering-tail staged req reqs (inr h) = inr h.1

Covering-staged :
    (staged : List EventRef) (req : Request) (reqs : List Request)
    → Covering staged (req ∷ reqs)
    → Covering (staged ++ refs req.events) reqs
Covering-staged staged req reqs (inl h) =
    inl (TaggedEvents-append staged (refs req.events) h.0 h.1.0, h.1.1)
Covering-staged staged req reqs (inr h) = inr h.1

Covering-head :
    (staged : List EventRef) (req : Request) (reqs : List Request)
    → Covering staged (req ∷ reqs)
    → TaggedEvents staged ⊎ AllClauses (λ (c : Clause). IsTagged c.1) req.condition
Covering-head staged req reqs (inl h) = inl h.0
Covering-head staged req reqs (inr h) = inr h.0

pub run_requests-Ran :
    (reqs : List Request) (w : Worker) (batch : Batch) (parts : List (List EventRef))
    (tail staged : List EventRef)
    → IsStore w.set w.index w.tips parts tail
    → Holds batch staged batch.next
    → All IsRequest reqs
    → Covering staged reqs
    → batch.first ≡ 1 + length (concat parts ++ tail)
    → batch.next + total_events reqs < u64_mod
    → Ran w (concat parts ++ tail) staged reqs batch (run_requests w batch reqs).0
unfolding run_requests
run_requests-Ran [] w batch parts tail staged store v ok_reqs cov start room = record {
  more = [];
  holds = subst (λ l. Holds batch l batch.next) (sym (append-nil staged)) v;
  acks = [];
  acked = sym (append-nil batch.staged);
  served = (ap (λ l. (concat parts ++ tail) ++ l) (append-nil staged), refl);
  same_first = refl;
  bound = omega arith;
}
run_requests-Ran (req ∷ reqs) w batch parts tail staged store v ok_reqs cov start room =
    let log = concat parts ++ tail in
    elim (Result-cases (admit w batch req)) [
      | inr (e, h) ↦
          let rest =
            run_requests-Ran reqs w batch parts tail staged store v ok_reqs.1
              (Covering-tail staged req reqs cov) start (omega arith) in
          subst (Ran w log staged (req ∷ reqs) batch)
            (sym (
              ap (λ (r : Batch × List AppendReply). r.0)
                (run_requests-rejected w batch req reqs e h)))
            (record {
              more = rest.more;
              holds = rest.holds;
              acks = rest.acks;
              acked = rest.acked;
              served = inl rest.served;
              same_first = rest.same_first;
              bound = omega (arith, rest.bound);
            })
      | inl (u, h) ↦
          let s = stage-Holds batch staged req.events req.token v ok_reqs.0.events (omega arith) in
          let rest =
            run_requests-Ran reqs w (stage batch req.events req.token) parts tail
              (staged ++ refs req.events) store s.0 ok_reqs.1 (Covering-staged staged req reqs cov)
              (s.1 ∙ start) (omega (arith, s.2)) in
          let mine : Staged = record {
            token = req.token;
            range = record { first = batch.next; last = batch.next + length req.events - 1 };
          } in
          let here : batch.next ≡ 1 + length (log ++ staged) =
            omega (arith, v.reached, start, length-append log staged) in
          let same : mine ≡ ack (log ++ staged) req =
            ap (λ n. acked_at req n (n + length req.events - 1)) here
            ∙ ap (λ m. acked_at req (1 + length (log ++ staged)) m)
                (let k : 1 + length (log ++ staged) + length req.events - 1
                      ≡ length (log ++ staged) + length req.events =
                    omega arith in
                  k) in
          subst (Ran w log staged (req ∷ reqs) batch)
            (sym (
              ap (λ (r : Batch × List AppendReply). r.0)
                (run_requests-admitted w batch req reqs h)))
            (record {
              more = refs req.events ++ rest.more;
              holds =
                  subst
                    (λ l.
                      Holds (run_requests w (stage batch req.events req.token) reqs).0 l
                        (run_requests w (stage batch req.events req.token) reqs).0.next)
                    (append_assoc staged (refs req.events) rest.more) rest.holds;
              acks = mine ∷ rest.acks;
              acked =
                  rest.acked
                  ∙ ap (λ l. l ++ rest.acks) s.3
                  ∙ append_assoc batch.staged (mine ∷ []) rest.acks;
              served = inr (
                rest.acks,
                ap (λ a. a ∷ rest.acks) same,
                admit-Guard w batch parts tail staged batch.next req req.condition store v refl
                    ok_reqs.0.wf (Covering-head staged req reqs cov) h,
                subst
                    (λ l.
                      Serves l reqs (log ++ (staged ++ (refs req.events ++ rest.more))) rest.acks)
                    (sym (append_assoc log staged (refs req.events)))
                    (subst
                      (λ l. Serves (log ++ (staged ++ refs req.events)) reqs (log ++ l) rest.acks)
                      (append_assoc staged (refs req.events) rest.more) rest.served),
              );
              same_first = rest.same_first ∙ s.1;
              bound = omega (
                arith,
                rest.bound,
                length-append (refs req.events) rest.more,
                length-refs req.events,
              );
            })
    ]
