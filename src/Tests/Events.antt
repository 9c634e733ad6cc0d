-- ===== src/Tests/Events.antt =====
-- Tests of the types, the event codec and the matching.
use tephra.Prelude.{◌≡◌, refl, true, [], ◌∷◌, arith, All}
use tephra.Prelude.Str.{str_lt}
use tephra.Prelude.Result.{ok}
use tephra.Types.Name.{new_tag}
use tephra.Types.Tags.{IsAscending}
use tephra.Types.Tags as Tags
use tephra.Types.Tags.New.{IsTagsResult, new_correct}
use tephra.Event.{as_ref, as_bytes, event_type, tags, payload, new}
use tephra.Event.Decode.{from_bytes}
use tephra.Event.Utf8.{is_utf8}
use tephra.Event.Checks.{IsText}
use tephra.Event.RoundTrip.{from_bytes-new}
use tephra.Event.Sound.{from_bytes-IsAscending, Utf8}
use tephra.Matching.{matches}
use tephra.Matching.Merge.{holds, matches-from_bytes}
use tephra.Tests.{ab, tag_t, tag_u, opened, closed, asks_t}

ab-IsText : IsText ab
unfolding is_utf8
ab-IsText = record { name = record { not_empty = omega arith; fits = omega arith }; utf8 = refl }

tag_t-IsText : IsText tag_t
unfolding is_utf8
tag_t-IsText = record { name = record { not_empty = omega arith; fits = omega arith }; utf8 = refl }

opened-new : new ab (tag_t ∷ []) (1 ∷ []) ≡ ok opened
unfolding new
opened-new = refl

from_bytes-new_example :
    (from_bytes (as_bytes opened) ≡ ok (as_ref opened))
    × (event_type (as_ref opened) ≡ ab)
    × (tags (as_ref opened) ≡ tag_t ∷ [])
    × (payload (as_ref opened) ≡ 1 ∷ [])
from_bytes-new_example =
    from_bytes-new ab (tag_t ∷ []) (1 ∷ []) {e = opened} ab-IsText (tag_t-IsText, tt) tt opened-new

pub opened_ascends : IsAscending (tags (as_ref opened))
unfolding tags
opened_ascends = tt

pub opened_decodes : from_bytes (as_bytes opened) ≡ ok (as_ref opened)
unfolding from_bytes
opened_decodes = refl

pub closed_ascends : IsAscending (tags (as_ref closed))
unfolding tags str_lt
closed_ascends = (refl, tt)

pub closed_decodes : from_bytes (as_bytes closed) ≡ ok (as_ref closed)
unfolding from_bytes
closed_decodes = refl

from_bytes-IsAscending_example :
    ((as_ref closed).buf ≡ as_bytes closed)
    × IsAscending (tags (as_ref closed))
    × All Utf8 (tags (as_ref closed))
    × (is_utf8 (event_type (as_ref closed)) ≡ true)
from_bytes-IsAscending_example =
    from_bytes-IsAscending (as_bytes closed) (as_ref closed) closed_decodes

matches-from_bytes_example :
    matches asks_t (as_ref closed)
    ≡ holds asks_t (event_type (as_ref closed)) (tags (as_ref closed))
matches-from_bytes_example =
    matches-from_bytes asks_t (as_bytes closed) (as_ref closed) (tt, tt) closed_decodes

new_correct_example :
    IsTagsResult (tag_u ∷ tag_t ∷ tag_u ∷ []) (Tags.new (tag_u ∷ tag_t ∷ tag_u ∷ []))
new_correct_example = new_correct (tag_u ∷ tag_t ∷ tag_u ∷ [])

accepted : new_tag ab ≡ ok ab
unfolding new_tag
accepted = refl

-- The match that the codec, the cursor and the query come to on the sample.
asks_t-matches : matches asks_t (as_ref closed) ≡ true
unfolding matches
asks_t-matches = refl
