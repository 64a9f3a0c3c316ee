-- ===== src/Log.antt =====
-- The logger: src/main/cpp/log.cpp and log.h. `vsnprintf` is given by the text that it formats.
pub mod Laws
use spartan_launcher.Prelude.{
  ℕ, ◌+◌, ◌-◌, Bool, true, false, ◌&&◌, Option, none, some, List, [], ◌∷◌, ◌++◌, map, ltb, leb,
  if◌then◌else◌, Bytes, codes, is_empty, is_space, to_upper, same_text, length, take,
}

pub data LoggingLevel : Type 0 where
  fatal err warn info debug trace : LoggingLevel

-- The enumerators' values.
unfoldable pub severity : LoggingLevel → ℕ
severity fatal = 6
severity err = 5
severity warn = 4
severity info = 3
severity debug = 2
severity trace = 1

unfoldable pub ltrim : Bytes → Bytes
ltrim [] = []
ltrim (c ∷ s) = if is_space c then ltrim s else c ∷ s

unfoldable pub rtrim : Bytes → Bytes
rtrim [] = []
rtrim (c ∷ s) = if is_empty (rtrim s) && is_space c then [] else c ∷ rtrim s

unfoldable pub trim : Bytes → Bytes
trim s = ltrim (rtrim s)

-- `DEFAULT_LOGGING_LEVEL`
abbrev pub default_level : LoggingLevel
default_level = info

unfoldable pub level_of : Bytes → LoggingLevel
level_of name =
    if same_text name (codes "TRACE")
    then trace
    else if same_text name (codes "DEBUG")
    then debug
    else if same_text name (codes "INFO")
    then info
    else if same_text name (codes "WARN")
    then warn
    else if same_text name (codes "ERR")
    then err
    else if same_text name (codes "FATAL")
    then fatal
    else default_level

unfoldable pub str_to_level : Bytes → LoggingLevel
str_to_level s = level_of (map to_upper (trim s))

-- The static variables; `openlog_armed` while `s_call_openlog` is the function that opens, and
-- `syslog_armed` while `s_syslog` is the one that writes.
pub record Logger : Type 0 where
  pub level : LoggingLevel
  pub progname : Bytes
  pub syslogging_enabled : Bool
  pub openlog_armed : Bool
  pub syslog_armed : Bool

abbrev pub new_logger : Logger
new_logger = record {
  level = default_level;
  progname = [];
  syslogging_enabled = true;
  openlog_armed = true;
  syslog_armed = true;
}

-- The identity that `openlog` gets, if it is called.
abbrev pub opened : Logger → Bytes → Bool → Option Bytes
opened lg ident is_enabled = if lg.openlog_armed && is_enabled then some ident else none

unfoldable pub set_progname : Logger → Bytes → Logger × Option Bytes
set_progname lg name =
    (record lg { progname = name; openlog_armed = false }, opened lg name lg.syslogging_enabled)

unfoldable pub set_syslogging : Logger → Bool → Logger × Option Bytes
set_syslogging lg is_enabled = (
  record lg {
    syslogging_enabled = is_enabled;
    openlog_armed = false;
    syslog_armed = lg.syslog_armed && is_enabled;
  },
  opened lg lg.progname is_enabled,
)

abbrev pub set_level : Logger → LoggingLevel → Logger
set_level lg l = record lg { level = l }

pub data Sink : Type 0 where
  stdout stderr : Sink

-- The stream, the text between the program's name and the message, and what syslog gets as level.
unfoldable pub style : LoggingLevel → Sink × Bytes × Option Bytes
style fatal = (stderr, codes ": FATAL: ", some (codes "FATAL"))
style err = (stderr, codes ": ERROR: ", some (codes "ERROR"))
style warn = (stderr, codes ": WARN: ", none)
style info = (stdout, codes ": INFO: ", none)
style debug = (stdout, codes ": DEBUG: ", none)
style trace = (stdout, codes ": TRACE: ", none)

pub record Written : Type 0 where
  pub sink : Sink
  pub text : Bytes
  pub syslog : Option (Bytes × Bytes)

-- `DEFAULT_STRBUF_SIZE`
abbrev pub default_strbuf_size : ℕ
default_strbuf_size = 256

-- `vsnprintf`: what fits in the buffer beside the NUL, and the length of the whole.
abbrev pub snprintf : ℕ → Bytes → Bytes × ℕ
snprintf size msg = (take (size - 1) msg, length msg)

-- The message, formatted a second time in a larger buffer if it did not fit in the first.
unfoldable pub formatted : Bytes → Bytes
formatted msg =
    let n = (snprintf default_strbuf_size msg).1 in
    if leb default_strbuf_size n
    then (snprintf (n + 1) msg).0
    else (snprintf default_strbuf_size msg).0

abbrev pub syslog_of : Bool → Option Bytes → Bytes → Option (Bytes × Bytes)
syslog_of armed none line = none
syslog_of armed (some level) line = if armed then some (level, line) else none

-- `vlog`; `none` when the level is below that of the logger.
unfoldable pub vlog : Logger → LoggingLevel → Bytes → Option Written
unfolding style
vlog lg l msg =
    if ltb (severity l) (severity lg.level)
    then none
    else let line = formatted msg ++ b'\n' ∷ [] in
      some (record {
        sink = (style l).0;
        text = lg.progname ++ ((style l).1 ++ line);
        syslog = syslog_of lg.syslog_armed (style l).2 line;
      })
