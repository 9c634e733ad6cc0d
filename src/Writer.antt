-- ===== src/Writer.antt =====
-- crates/tephra/src/writer: the types of the write coordinator (mod.rs).
pub mod Condition
pub mod Batch
pub mod Coordinator
use tephra.Prelude.{ℕ, ◌*◌, Bool, false, List, Option}
use tephra.Types.Position.{Position, PositionRange}
use tephra.Types.Query.{AppendCondition}
use tephra.Event.{Event}
use tephra.Event.Decode.{DecodeError}
use tephra.Log.{LogError}

-- WriterConfig, without the read-path tuning that only configures the planner
pub record WriterConfig : Type 0 where
  pub queue_capacity : ℕ
  pub max_batch_records : ℕ
  pub max_batch_bytes : ℕ
  pub tips_window : ℕ
  pub verify_tips : Bool
  pub condition_force_scan : Bool

-- WriterConfig::default
abbrev pub default_config : WriterConfig
default_config = record {
  queue_capacity = 16384;
  max_batch_records = 2048;
  max_batch_bytes = 8 * 1024 * 1024;
  tips_window = 1000000;
  verify_tips = false;
  condition_force_scan = false;
}

pub data ConflictClause : Type 0 where
  boundary existence : ConflictClause

pub data ConflictSite : Type 0 where
  durable : Position → ConflictSite
  same_batch : ConflictSite

pub data AppendError : Type 0 where
  conflict : ConflictClause → ConflictSite → AppendError
  after_beyond_tip : Position → Position → AppendError
  empty : AppendError
  too_large : ℕ → AppendError
  log : LogError → AppendError
  corrupt : DecodeError → AppendError
  shutdown : AppendError

-- A request; the reply channel is the token that each reply carries.
pub record Request : Type 0 where
  pub events : List Event
  pub condition : Option AppendCondition
  pub token : ℕ

pub data Message : Type 0 where
  append : Request → Message
  shutdown_message : Message
