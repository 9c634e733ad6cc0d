-- ===== src/Tests.antt =====
-- Concrete inputs: the events, the store and the requests that the tests run on.
pub mod Events
pub mod Tips
pub mod Seglog
pub mod Codecs
pub mod Index
pub mod Read
pub mod Log
pub mod Writer
pub mod Admit
use tephra.Prelude.{ℕ, List, [], ◌∷◌, Option, none, some, true, false}
use tephra.Prelude.Str.{Str}
use tephra.Types.Query.{QueryItem, Query, AppendCondition}
use tephra.Event.{Event, EventRef, as_ref}
use tephra.Log.{SegmentConfig, SegmentSet, Disk, taken}
use tephra.Writer.{Request}

-- "ab", and the tags "t" and "u"
abbrev pub ab : Str
ab = 97 ∷ 98 ∷ []

abbrev pub tag_t : Str
tag_t = 116 ∷ []

abbrev pub tag_u : Str
tag_u = 117 ∷ []

-- An event of type "ab" with the tag "t" and one byte of payload, encoded.
abbrev pub opened : Event
opened = record { buf = 2 ∷ 0 ∷ 1 ∷ 0 ∷ 1 ∷ 0 ∷ 97 ∷ 98 ∷ 116 ∷ 1 ∷ []; data_offset = 9 }

-- One with both tags and no payload.
abbrev pub closed : Event
closed = record { buf = 2 ∷ 0 ∷ 2 ∷ 0 ∷ 1 ∷ 0 ∷ 1 ∷ 0 ∷ 97 ∷ 98 ∷ 116 ∷ 117 ∷ []; data_offset = 12 }

abbrev pub tagged_t : QueryItem
tagged_t = record { types = []; tags = tag_t ∷ [] }

abbrev pub asks_t : Query
asks_t = Query.items (tagged_t ∷ [])

abbrev pub if_new : AppendCondition
if_new = record { fail_if_events_match = asks_t; after = 0; fail_if_exists = some asks_t }

-- Two requests for the same guarded decision.
abbrev pub open_request : ℕ → Request
open_request token = record { events = opened ∷ []; condition = some if_new; token = token }

abbrev pub two_opens : List Request
two_opens = open_request 7 ∷ open_request 8 ∷ []

abbrev pub small_config : SegmentConfig
small_config = record { segment_size = 256; max_record_len = 64; header_size = 64 }

abbrev pub empty_log : SegmentSet
empty_log = record {
  config = small_config;
  sealed = [];
  active = record { base_position = 1; records = [] };
  write_offset = 64;
  next_position = 1;
  file = [];
  pending = [];
  torn = false;
}

abbrev pub good_disk : Disk
good_disk = record {
  synced = true;
  created = true;
  appends = [];
  marker = taken;
  committed = true;
  rewound = true;
}
