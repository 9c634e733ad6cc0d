-- ===== src/Read/Fallback.antt =====
-- The scan of a segment without an index: Scan::start of crates/tephra/src/log/set.rs up to a bound
-- within the log, and scan_positions_into of crates/tephra/src/read/mod.rs over it.
use tephra.Prelude.{
  ℕ, zero, suc, ◌+◌, ◌-◌, ◌≤◌, ◌<◌, ◌≡◌, refl, sym, ap, ◌∙◌, false, List, [], ◌∷◌, ◌++◌, append-nil,
  append_assoc, Option, leb, ltb, length, keep, drop, take, arith, Bool-cases, inl, inr,
  length-drop, length-take, take-append-drop, min, max,
}
use tephra.Prelude.Str.{Bytes}
use tephra.Prelude.Result.{ok}
use tephra.Types.Position.{Position, next, next-eq, sub, sub-eq, u64_mod}
use tephra.Types.Query.{Query}
use tephra.Event.{EventRef}
use tephra.Matching.{matches}
use tephra.Index.Search.Oracle.{scan_from}
use tephra.Index.Plan.Bound.{within}
use tephra.Log.{Segment, all_records, emit, scan}
use tephra.Log.Locate.{locate-owner_on}
use tephra.Log.Scan.{Contiguous, placed, owner_on-covers, Contiguous-NonFalling, Contiguous-end}
use tephra.Writer.Condition.Exact.{Decoded}
use tephra.Read.{Snapshot, reached, truncate, scan_positions_matching, scan_positions_into}
use tephra.Read.Window.{window, window-segment, window-empty, keep-scan_from, keep-scan_from_none}
use tephra.Read.Cap.{take-filled, unreached, truncate-reached, truncate-unreached}

-- A record's position at or below `upto`.
abbrev pub placed_upto : Position → Position → List Bytes → List (Position × Bytes)
placed_upto upto at records = keep (λ (r : Position × Bytes). leb r.0 upto) (placed at records)

placed_upto-past :
    (upto at : Position) (records : List Bytes) → upto < at → placed_upto upto at records ≡ []
placed_upto-past upto at [] h = refl
placed_upto-past upto at (r ∷ records) h =
    ground (arith, placed_upto-past upto (suc at) records (omega arith))

emit-placed_upto :
    (records : List Bytes) (at upto : Position)
    → at + length records < u64_mod
    → emit at upto records ≡ placed_upto upto at records
unfolding emit
emit-placed_upto [] at upto h = refl
emit-placed_upto (r ∷ records) at upto h =
    let step : next at ≡ suc at = next-eq at (omega arith) ∙ omega arith in
    let past = placed_upto-past upto (suc at) records in
    elim (Bool-cases (ltb upto at)) [
      | inl e ↦ ground (arith, e, past (ground (arith, e)))
      | inr e ↦ ground (
        arith,
        e,
        ap (λ n. emit n upto records) step,
        emit-placed_upto records (suc at) upto (omega arith),
      )
    ]

-- The scan from a position of the log, up to a bound that may lie within a segment.
pub scan-placed_upto :
    (sealed : List Segment) (active : Segment) (end from upto : Position)
    → Contiguous (sealed ++ active ∷ []) 1 end
    → end < u64_mod
    → 1 ≤ from
    → from ≤ upto
    → upto < end
    → scan sealed active from upto
      ≡ ok (placed_upto upto from (drop (from - 1) (all_records (sealed ++ active ∷ []))))
unfolding scan
scan-placed_upto sealed active end from upto h small k l m =
    let segs = sealed ++ active ∷ [] in
    let r = owner_on-covers segs 1 end from h k (omega arith) in
    let (idx, located, there) =
      locate-owner_on sealed active 1 from r.owner r.rest
        (Contiguous-NonFalling segs 1 1 end h (omega arith)) k r.found in
    let local : sub from r.owner.base_position ≡ from - r.owner.base_position =
      sub-eq from r.owner.base_position r.starts (omega arith) in
    let rest : length (drop (from - 1) (all_records segs)) ≡ end - from =
      omega (arith, length-drop (from - 1) (all_records segs), Contiguous-end segs 1 end h) in
    let emitted =
      emit-placed_upto (drop (from - 1) (all_records segs)) from upto (omega (arith, rest)) in
    ground (arith, located, there, r.starts, r.holds, local, ap (emit from upto) r.content, emitted)

-- The positions at or below `upto` of the matching events.
abbrev found_upto : Query → Position → Position → List EventRef → List Position
found_upto q upto at es = keep (λ p. leb p upto) (scan_from q at es)

found_upto-past :
    (q : Query) (upto at : Position) (es : List EventRef) → upto < at → found_upto q upto at es ≡ []
found_upto-past q upto at es h =
    keep-scan_from_none (λ p. leb p upto) q at es (λ n a b. ground (arith, a))

-- What matching adds to what is gathered, below the cap.
scan_positions_matching-found :
    (records : List Bytes) (es : List EventRef) (at upto : Position) (q : Query)
    (out : List Position) (cap : Option ℕ)
    → Decoded records es
    → reached cap out ≡ false
    → scan_positions_matching (placed_upto upto at records) q out cap
      ≡ ok (truncate cap (out ++ found_upto q upto at es))
unfolding scan_positions_matching scan_from
scan_positions_matching-found [] [] at upto q out cap d h =
    ap (λ l. ok l) (sym (ap (truncate cap) (append-nil out) ∙ unreached out cap h))
scan_positions_matching-found [] (e ∷ es) at upto q out cap d h = absurd d
scan_positions_matching-found (r ∷ records) [] at upto q out cap d h = absurd d
scan_positions_matching-found (r ∷ records) (e ∷ es) at upto q out cap d h =
    elim (Bool-cases (leb at upto)) [
      | inl l ↦ elim (Bool-cases (matches q e)) [
        | inl m ↦ elim (Bool-cases (reached cap (out ++ at ∷ []))) [
          | inl full ↦
              rw (l, d.0, m, full, l)
                (ap (λ x. ok x)
                  (sym (take-filled out at (found_upto q upto (suc at) es) cap h full)))
          | inr room ↦
              rw (l, d.0, m, room, l)
                (scan_positions_matching-found records es (suc at) upto q (out ++ at ∷ []) cap d.1
                    room
                  ∙ ap (λ x. ok (truncate cap x))
                      (append_assoc out (at ∷ []) (found_upto q upto (suc at) es)))
        ]
        | inr m ↦
            rw (l, d.0, m) (scan_positions_matching-found records es (suc at) upto q out cap d.1 h)
      ]
      | inr l ↦
          let past : upto < at = ground (arith, l) in
          ap (λ x. scan_positions_matching x q out cap)
            (placed_upto-past upto at (r ∷ records) past)
          ∙ ap (λ x. ok x) (sym (unreached out cap h))
          ∙ ap (λ x. ok (truncate cap x)) (sym (append-nil out))
          ∙ ap (λ x. ok (truncate cap (out ++ x))) (sym (found_upto-past q upto at (e ∷ es) past))
    ]

Decoded-drop :
    (n : ℕ) (records : List Bytes) (es : List EventRef)
    → Decoded records es
    → Decoded (drop n records) (drop n es)
Decoded-drop zero records es d = d
Decoded-drop (suc n) [] [] d = tt
Decoded-drop (suc n) [] (e ∷ es) d = absurd d
Decoded-drop (suc n) (r ∷ records) [] d = absurd d
Decoded-drop (suc n) (r ∷ records) (e ∷ es) d = Decoded-drop n records es d.1

-- The events from a position on, as a window of the log.
found_upto-window :
    (q : Query) (all : List EventRef) (first upto : Position)
    → 1 ≤ first
    → first ≤ upto
    → upto ≤ length all
    → found_upto q upto first (drop (first - 1) all) ≡ window q all (first - 1) upto
found_upto-window q all first upto a b c =
    let n = first - 1 in
    let here : first ≡ 1 + length (take n all) = omega (arith, length-take n all) in
    let low : max (first - 1) (first - 1) ≡ first - 1 = omega arith in
    let high : min (first + length (drop n all) - 1) upto ≡ upto =
      omega (arith, length-drop n all) in
    let whole : take n all ++ (drop n all ++ []) ≡ all =
      ap (λ l. take n all ++ l) (append-nil (drop n all)) ∙ take-append-drop n all in
    keep-scan_from (λ p. leb p upto) (within (first - 1) upto) q first (drop n all)
      (λ m l h. ground (arith, a, l))
    ∙ window-segment q (take n all) (drop n all) [] first (first - 1) upto here
    ∙ ap
        (λ l. window q l (max (first - 1) (first - 1)) (min (first + length (drop n all) - 1) upto))
        whole
    ∙ ap (λ m. window q all m (min (first + length (drop n all) - 1) upto)) low
    ∙ ap (window q all (first - 1)) high

-- The log that the segments of a snapshot hold.
pub record LogOf (s : Snapshot) (all : List EventRef) : Type 0 where
  pub contiguous : Contiguous (s.sealed_log ++ s.active_log ∷ []) 1 (1 + length all)
  pub small : 1 + length all < u64_mod
  pub decoded : Decoded (all_records (s.sealed_log ++ s.active_log ∷ [])) all

module _ (s : Snapshot) (all : List EventRef) (v : LogOf s all) (q : Query) where
  scan_positions_into-unreached :
      (first upto : Position) (out : List Position) (cap : Option ℕ)
      → 1 ≤ first
      → upto ≤ length all
      → reached cap out ≡ false
      → scan_positions_into s q first upto out cap
        ≡ ok (truncate cap (out ++ window q all (first - 1) upto))
  unfolding scan_positions_into scan scan_positions_matching
  scan_positions_into-unreached first upto out cap a b h = elim (Bool-cases (ltb upto first)) [
    | inl e ↦
        let nothing = window-empty q all (first - 1) upto (ground (arith, e)) in
        rw (h, e)
          (let kept = unreached out cap h in
            ground (
              arith,
              sym kept ∙ ap (truncate cap) (sym (append-nil out)),
              ap (λ x. truncate cap (out ++ x)) nothing,
            ))
    | inr e ↦
        let le : first ≤ upto = ground (arith, e) in
        let scanned =
          scan-placed_upto s.sealed_log s.active_log (1 + length all) first upto v.contiguous
            v.small a le (omega arith) in
        let matched =
          scan_positions_matching-found
            (drop (first - 1) (all_records (s.sealed_log ++ s.active_log ∷ [])))
            (drop (first - 1) all) first upto q out cap
            (Decoded-drop (first - 1) (all_records (s.sealed_log ++ s.active_log ∷ [])) all
              v.decoded)
            h in
        into_scan first upto out cap h scanned
        ∙ matched
        ∙ ap (λ x. ok (truncate cap (out ++ x))) (found_upto-window q all first upto a le b)
  ]
    where
      into_scan :
          (first upto : Position) (out : List Position) (cap : Option ℕ)
          {records : List (Position × Bytes)}
          → reached cap out ≡ false
          → scan s.sealed_log s.active_log first upto ≡ ok records
          → scan_positions_into s q first upto out cap ≡ scan_positions_matching records q out cap
      into_scan first upto out cap h k = rw (h, k) refl

  -- Scanning a range adds the window that it covers to what is gathered.
  pub scan_positions_into-window :
      (first upto : Position) (xs : List Position) (cap : Option ℕ)
      → 1 ≤ first
      → upto ≤ length all
      → scan_positions_into s q first upto (truncate cap xs) cap
        ≡ ok (truncate cap (xs ++ window q all (first - 1) upto))
  unfolding scan_positions_into
  scan_positions_into-window first upto xs cap a b =
      elim (Bool-cases (reached cap (truncate cap xs))) [
        | inl full ↦
            rw full
              (ap (λ l. ok l) (sym (truncate-reached xs (window q all (first - 1) upto) cap full)))
        | inr room ↦
            let same = truncate-unreached xs cap room in
            ap (λ l. scan_positions_into s q first upto l cap) same
            ∙ scan_positions_into-unreached first upto xs cap a b
                (ap (reached cap) (sym same) ∙ room)
      ]
