-- ===== src/Types/Name.antt =====
-- crates/tephra-types/src/name.rs: event type and tag names. Both newtypes are their bytes.
use Prim.Native.String.{String}
use tephra.Prelude.{ℕ, ◌<◌, ◌≤◌, ◌≡◌, arith, ltb, if◌then◌else◌, length, is_empty}
use tephra.Prelude.Str.{Str}
use tephra.Prelude.Result.{Result, ok, err, ◌>>=◌}
use tephra.Types.Position.{u16_max}

abbrev pub max_name_len : ℕ
max_name_len = u16_max

pub data NameError : Type 0 where
  empty : String → NameError
  too_long : String → ℕ → ℕ → NameError

abbrev pub EventType : Type 0
EventType = Str

abbrev pub Tag : Type 0
Tag = Str

-- The check that both constructors make; `what` names the kind of name in the error.
unfoldable pub validate_name : Str → String → Result NameError (Unit {0})
validate_name s what =
    if is_empty s
    then err (empty what)
    else if ltb max_name_len (length s)
    then err (too_long what (length s) max_name_len)
    else ok tt

-- EventType::new
unfoldable pub new_event_type : Str → Result NameError EventType
unfolding validate_name
new_event_type s = validate_name s "event type" >>= λ _. ok s

-- Tag::new
unfoldable pub new_tag : Str → Result NameError Tag
unfolding validate_name
new_tag s = validate_name s "tag" >>= λ _. ok s

-- A name is valid when the constructors accept it.
pub record IsName (s : Str) : Type 0 where
  pub not_empty : 0 < length s
  pub fits : length s ≤ max_name_len

-- A tag that Tag::new accepts is the given string, not empty and within the length limit.
new_tag-IsName : (s : Str) {t : Tag} → new_tag s ≡ ok t → IsName t × (t ≡ s)
unfolding new_tag
new_tag-IsName s h = ground arith

pub IsName-new_tag : (s : Str) → IsName s → new_tag s ≡ ok s
unfolding new_tag
IsName-new_tag s v = ground arith
