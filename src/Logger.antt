-- ===== src/Logger.antt =====
-- job_logger.go: the handler that sends the records of a job's logger to the server. The console's
-- handler is left out. `sprint` is fmt.Sprint on the value of an attribute.
pub mod Groups
use rediver_sdk_go.Prelude.{
  Bool, true, false, String, is_empty, ◌<>◌, Option, none, some, List, [], ◌∷◌, ◌++◌, ℤ, pos,
  negsuc, leb_ℤ, if◌then◌else◌,
}

pub record Attr (V : Type 0) : Type 0 where
  pub key : String
  pub value : V

pub record Record (V : Type 0) : Type 0 where
  pub level : ℤ
  pub message : String
  pub attrs : List (Attr V)

-- `has_log_fn` tells whether logFn is set.
pub record Handler (V : Type 0) : Type 0 where
  pub has_log_fn : Bool
  pub min_level : ℤ
  pub attrs : List (Attr V)
  pub groups : List String

-- `slogLevelToLogLevel`; slog's levels are -4, 0, 4 and 8.
unfoldable pub slog_level_to_log_level : ℤ → String
slog_level_to_log_level l =
    if leb_ℤ (pos 8) l
    then "error"
    else if leb_ℤ (pos 4) l
    then "warn"
    else if leb_ℤ (pos 0) l
    then "info"
    else "debug"

unfoldable pub write_groups : String → List String → String
write_groups b [] = b
write_groups b (g ∷ gs) = write_groups ((b <> g) <> ".") gs

module _ {V : Type 0} (sprint : V → String) where
  -- `writeAttr`, on what the builder holds.
  unfoldable pub write_attr : List String → String → Attr V → String
  unfolding write_groups
  write_attr groups b a =
      if is_empty a.key
      then b
      else ((write_groups (b <> " ") groups <> a.key) <> "=") <> sprint a.value

  unfoldable pub write_attrs : List String → String → List (Attr V) → String
  unfolding write_attr
  write_attrs groups b [] = b
  write_attrs groups b (a ∷ as') = write_attrs groups (write_attr groups b a) as'

  -- `formatLogRecord`
  unfoldable pub format_log_record : Record V → List String → List (Attr V) → String
  unfolding write_attrs
  format_log_record r groups pre_attrs =
      write_attrs groups (write_attrs groups r.message pre_attrs) r.attrs

  -- `Handle`: the level and the message that logFn is called with, in a goroutine of its own.
  unfoldable pub handle : Handler V → Record V → Option (String × String)
  unfolding format_log_record slog_level_to_log_level
  handle h r =
      if h.has_log_fn
      then some (slog_level_to_log_level r.level, format_log_record r h.groups h.attrs)
      else none

module _ {V : Type 0} where
  unfoldable pub new_job_log_handler : Bool → ℤ → Handler V
  new_job_log_handler has_log_fn level = record {
    has_log_fn = has_log_fn;
    min_level = level;
    attrs = [];
    groups = [];
  }

  unfoldable pub enabled : Handler V → ℤ → Bool
  enabled h level = leb_ℤ h.min_level level

  unfoldable pub with_attrs : List (Attr V) → Handler V → Handler V
  with_attrs attrs h = record h { attrs = h.attrs ++ attrs }

  unfoldable pub with_group : String → Handler V → Handler V
  with_group name h = record h { groups = h.groups ++ name ∷ [] }
