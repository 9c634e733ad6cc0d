-- ===== src/Writer/Coordinator/Drain.antt =====
-- Worker::collect of crates/tephra/src/writer/coordinator.rs: nothing that was sent is lost or
-- overtaken, and a window of several requests fits its budget.
use tephra.Prelude.{
  ℕ, zero, suc, ◌+◌, ◌-◌, ◌≤◌, ◌≡◌, ◌⊎◌, refl, sym, ap, ◌∙◌, subst, true, false, List, [], ◌∷◌,
  ◌++◌, append_assoc, Option, none, some, length, length-append, arith, Bool-cases, Option-cases,
  inl, inr, ltb, ◌||◌,
}
use tephra.Writer.{Request, Message, append, shutdown_message, WriterConfig}
use tephra.Writer.Batch.{measure, marker_bytes}
use tephra.Writer.Coordinator.{Worker, is_oversized, drain, collect_from, collect}

-- The requests that wait, first the deferred one.
abbrev pub queued : List Message → List Request
queued [] = []
queued (append request ∷ rx) = request ∷ queued rx
queued (shutdown_message ∷ rx) = queued rx

abbrev pub pending : Worker → List Request
pending w = elim w.pushback [ none ↦ queued w.rx | some request ↦ request ∷ queued w.rx ]

abbrev pub framed : List Request → ℕ
framed [] = 0
framed (req ∷ reqs) = (measure req.events).0 + framed reqs

framed-snoc :
    (reqs : List Request) (req : Request)
    → framed (reqs ++ req ∷ []) ≡ framed reqs + (measure req.events).0
framed-snoc [] req = omega arith
framed-snoc (r ∷ reqs) req = omega (arith, framed-snoc reqs req)

not_oversized :
    (w : Worker) (sum largest : ℕ)
    → is_oversized w sum largest ≡ false
    → marker_bytes + sum ≤ w.cfg.max_batch_bytes
unfolding is_oversized
not_oversized w sum largest h = ground (arith, h)

-- What a drain leaves: the order of what waits, and the budget.
record Drained (cfg : WriterConfig) (limit : ℕ) (waiting : List Request) (w' : Worker)
    (reqs' : List Request) : Type 0 where
  pub order : reqs' ++ pending w' ≡ waiting
  pub bytes : marker_bytes + framed reqs' ≤ cfg.max_batch_bytes
  pub count : length reqs' ≤ limit

drain-at :
    (fuel : ℕ) (w : Worker) (rx : List Message) (reqs : List Request) (bytes : ℕ)
    → w.rx ≡ rx
    → w.pushback ≡ none
    → bytes ≡ marker_bytes + framed reqs
    → bytes ≤ w.cfg.max_batch_bytes
    → Drained w.cfg
        (length reqs + fuel)
        (reqs ++ queued rx)
        (drain fuel w reqs bytes).0
        (drain fuel w reqs bytes).1
unfolding drain
drain-at zero w rx reqs bytes at clear b fits = record {
  order = ap (λ l. reqs ++ l) (ground (arith, at, clear));
  bytes = omega (arith, b, fits);
  count = omega arith;
}
drain-at (suc fuel) w [] reqs bytes at clear b fits = rw at (record {
  order = ap (λ l. reqs ++ l) (ground (arith, at, clear));
  bytes = omega (arith, b, fits);
  count = omega arith;
})
drain-at (suc fuel) w (shutdown_message ∷ rx) reqs bytes at clear b fits = rw at (record {
  order = ap (λ l. reqs ++ l) (ground (arith, clear));
  bytes = omega (arith, b, fits);
  count = omega arith;
})
drain-at (suc fuel) w (append request ∷ rx) reqs bytes at clear b fits =
    let size = measure request.events in
    elim (Bool-cases (is_oversized w size.0 size.1 || ltb w.cfg.max_batch_bytes (bytes + size.0))) [
      | inl defer ↦
          rw (at, defer)
            (record { order = refl; bytes = omega (arith, b, fits); count = omega arith })
      | inr take ↦
          let fits' : bytes + size.0 ≤ w.cfg.max_batch_bytes = ground (arith, take) in
          let more =
            drain-at fuel (record w { rx = rx }) rx (reqs ++ request ∷ []) (bytes + size.0) refl
              clear (omega (arith, b, framed-snoc reqs request)) fits' in
          rw (at, take)
            (record {
              order = more.order ∙ append_assoc reqs (request ∷ []) (queued rx);
              bytes = more.bytes;
              count = omega (arith, more.count, length-append reqs (request ∷ []));
            })
    ]

-- What collect promises of the requests it takes.
pub record Window (w w' : Worker) (reqs : List Request) : Type 0 where
  pub order : reqs ++ pending w' ≡ pending w
  pub budget :
      (length reqs ≡ 1)
      ⊎ ((marker_bytes + framed reqs ≤ w.cfg.max_batch_bytes)
          × (length reqs ≤ w.cfg.max_batch_records))

collect_from-Window :
    (w : Worker) (request : Request)
    → w.pushback ≡ none
    → 1 ≤ w.cfg.max_batch_records
    → ((collect_from w request).1 ++ pending (collect_from w request).0 ≡ request ∷ queued w.rx)
      × ((length (collect_from w request).1 ≡ 1)
          ⊎ ((marker_bytes + framed (collect_from w request).1 ≤ w.cfg.max_batch_bytes)
              × (length (collect_from w request).1 ≤ w.cfg.max_batch_records)))
unfolding collect_from
collect_from-Window w request clear some_room =
    let size = measure request.events in
    elim (Bool-cases (is_oversized w size.0 size.1)) [
      | inl solo ↦ rw solo (ap (λ l. request ∷ l) (ground (arith, clear)), inl refl)
      | inr shared ↦
          let d =
            drain-at (w.cfg.max_batch_records - 1) w w.rx (request ∷ []) (marker_bytes + size.0)
              refl clear (omega arith) (within shared) in
          rw shared (d.order, inr (d.bytes, omega (arith, d.count)))
    ]
  where
    within :
        is_oversized w (measure request.events).0 (measure request.events).1 ≡ false
        → marker_bytes + (measure request.events).0 ≤ w.cfg.max_batch_bytes
    within shared = not_oversized w (measure request.events).0 (measure request.events).1 shared

abbrev pub Taken : Worker → Worker → Option (List Request) → Type 0
Taken w w' none = (pending w' ≡ pending w) × (w'.shutdown ≡ true)
Taken w w' (some reqs) = Window w w' reqs

module _ (w : Worker) (some_room : 1 ≤ w.cfg.max_batch_records) where
  abbrev TakenBy : Worker × Option (List Request) → Type 0
  TakenBy r = Taken w r.0 r.1

  abbrev from : Worker → Request → Worker × Option (List Request)
  from start request = let r = collect_from start request in (r.0, some r.1)

  collect-queued :
      (rx : List Message) (request : Request)
      → w.pushback ≡ none
      → w.rx ≡ append request ∷ rx
      → collect w ≡ from (record w { rx = rx }) request
  unfolding collect
  collect-queued rx request clear at = ground (arith, clear, at)

  collect-deferred :
      (request : Request)
      → w.pushback ≡ some request
      → collect w ≡ from (record w { pushback = none }) request
  unfolding collect
  collect-deferred request deferred = ground (arith, deferred)

  from_queue :
      (rx : List Message) → w.pushback ≡ none → w.rx ≡ rx → Taken w (collect w).0 (collect w).1
  unfolding collect
  from_queue [] clear at = rw (clear, at) (ground (arith, clear, at), refl)
  from_queue (shutdown_message ∷ rx) clear at = rw (clear, at) (ground (arith, clear, at), refl)
  from_queue (append request ∷ rx) clear at =
      let r = collect_from-Window (record w { rx = rx }) request clear some_room in
      let front : request ∷ queued rx ≡ pending w = ground (arith, clear, at) in
      subst TakenBy (sym (collect-queued rx request clear at))
        (record { order = r.0 ∙ front; budget = r.1 })

  -- With room for at least one request, collecting takes a window from the front of what waits,
  -- the deferred request before the queue, in order and losing none; the window is one request, or
  -- fits the byte budget and the limit on requests. When nothing is taken, nothing is lost and the
  -- coordinator shuts down.
  pub collect-Taken : Taken w (collect w).0 (collect w).1
  unfolding collect
  collect-Taken = elim (Option-cases w.pushback) [
    | inl clear ↦ from_queue w.rx clear refl
    | inr (request, deferred) ↦
        let r = collect_from-Window (record w { pushback = none }) request refl some_room in
        let front : request ∷ queued w.rx ≡ pending w = ground (arith, deferred) in
        subst TakenBy (sym (collect-deferred request deferred))
          (record { order = r.0 ∙ front; budget = r.1 })
  ]
