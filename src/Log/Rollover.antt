-- ===== src/Log/Rollover.antt =====
-- SegmentSet::rollover of crates/tephra/src/log/set.rs keeps the log.
use tephra.Prelude.{
  ◌+◌, ◌≡◌, false, refl, sym, ap, ◌∙◌, subst, List, [], ◌∷◌, ◌++◌, append-nil, append_assoc, length,
  arith,
}
use tephra.Prelude.Str.{Bytes}
use tephra.Prelude.Result.{ok}
use tephra.Types.Position.{Position}
use tephra.Log.{Segment, SegmentSet, Disk, segments, all_records, rollover}
use tephra.Log.Scan.{Contiguous, IsLog}

pub all_records-append :
    (xs ys : List Segment) → all_records (xs ++ ys) ≡ all_records xs ++ all_records ys
all_records-append [] ys = refl
all_records-append (s ∷ xs) ys =
    ap (λ l. s.records ++ l) (all_records-append xs ys)
    ∙ sym (append_assoc s.records (all_records xs) (all_records ys))

pub Contiguous-snoc :
    (xs : List Segment) (s : Segment) (at end : Position)
    → Contiguous xs at end
    → s.base_position ≡ end
    → Contiguous (xs ++ s ∷ []) at (end + length s.records)
Contiguous-snoc [] s at end h b = (b ∙ sym h, ap (λ n. n + length s.records) h)
Contiguous-snoc (x ∷ xs) s at end h b =
    (h.0, Contiguous-snoc xs s (at + length x.records) end h.1 b)

-- The sealed segments reach up to the active one's base.
pub Contiguous-sealed :
    (xs : List Segment) (s : Segment) (at end : Position)
    → Contiguous (xs ++ s ∷ []) at end
    → Contiguous xs at s.base_position × (end ≡ s.base_position + length s.records)
Contiguous-sealed [] s at end h =
    (sym h.0, let k : end ≡ s.base_position + length s.records = omega (arith, h.0, h.1) in k)
Contiguous-sealed (x ∷ xs) s at end h =
    let r = Contiguous-sealed xs s (at + length x.records) end h.1 in ((h.0, r.0), r.1)

abbrev pub log_of : SegmentSet → List Bytes
log_of set = all_records (segments set)

abbrev pub rolled : SegmentSet → SegmentSet
rolled set = record set {
  sealed = set.sealed ++ set.active ∷ [];
  active = record { base_position = set.next_position; records = [] };
  write_offset = set.config.header_size;
  file = [];
  pending = [];
  torn = false;
}

pub rollover-IsLog :
    (set set' : SegmentSet) (disk : Disk)
    → IsLog set
    → rollover set disk ≡ ok set'
    → IsLog set'
      × (log_of set' ≡ log_of set)
      × (set'.next_position ≡ set.next_position)
      × (set'.config ≡ set.config)
      × (set'.write_offset ≡ set.config.header_size)
unfolding rollover
rollover-IsLog set set' disk v h =
    let made : rolled set ≡ set' = ground (arith, h) in
    subst
      (λ (x : SegmentSet).
        IsLog x
        × (log_of x ≡ log_of set)
        × (x.next_position ≡ set.next_position)
        × (x.config ≡ set.config)
        × (x.write_offset ≡ set.config.header_size))
      made
      (
        record {
          contiguous =
              subst (Contiguous (segments (rolled set)) 1)
                (let k : set.next_position + 0 ≡ set.next_position = omega arith in k)
                (Contiguous-snoc (segments set)
                  (record { base_position = set.next_position; records = [] }) 1 set.next_position
                  v.contiguous refl);
          small = v.small;
          offset = v.header;
          header = v.header;
          file = refl;
          pending = refl;
          torn = refl;
        },
        all_records-append (segments set)
              (record { base_position = set.next_position; records = [] } ∷ [])
            ∙ append-nil (log_of set),
        refl,
        refl,
        refl,
      )
