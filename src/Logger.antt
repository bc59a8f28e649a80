-- ===== src/Logger.antt =====
-- src/logger.h and src/logger.cpp: the level, the file and the console of the logger. What the
-- program writes on a stream is the list of its lines; the timestamp is an argument, since it is the
-- clock's, and `opens` tells which files the system can open. A std::ofstream that is open refuses a
-- second open and keeps its file, with its fail bit set; the fail bit stops all writes.
pub mod Lines
mod Examples
use kv_store_project.Prelude.{
  ℕ, zero, suc, ◌+◌, ◌/◌, ◌%◌, Bool, true, false, ◌&&◌, Option, none, some, List, [], ◌∷◌, ◌++◌,
  ltb, ◌==◌, if◌then◌else◌,
}
use kv_store_project.Prelude.Int.{ℤ, pos, negsuc}
use kv_store_project.Prelude.Text.{Bytes, codes, bytes_eq}

pub data LogLevel : Type 0 where
  debug info warn error : LogLevel

abbrev pub rank : LogLevel → ℕ
rank LogLevel.debug = 0
rank LogLevel.info = 1
rank LogLevel.warn = 2
rank LogLevel.error = 3

-- The std::ofstream: the open file's name, the fail bit, and all lines written with their files
pub record LogFile : Type 0 where
  open_name : Option Bytes
  failed : Bool
  written : List (Bytes × Bytes)

pub record Logger : Type 0 where
  min_level : LogLevel
  log_file : LogFile
  log_to_file : Bool
  log_to_console : Bool
  stdout : List Bytes
  stderr : List Bytes

abbrev pub initial : Logger
initial = record {
  min_level = LogLevel.info;
  log_file = record { open_name = none; failed = false; written = [] };
  log_to_file = false;
  log_to_console = true;
  stdout = [];
  stderr = [];
}

abbrev pub is_open : LogFile → Bool
is_open f = elim f.open_name [ none ↦ false | some _ ↦ true ]

abbrev pub open_file : (Bytes → Bool) → Bytes → LogFile → LogFile
open_file opens name f = elim f.open_name [
  | some _ ↦ record f { failed = true }
  | none ↦
      if opens name
      then record f { open_name = some name; failed = false }
      else record f { failed = true }
]

abbrev pub write_line : Bytes → LogFile → LogFile
write_line line f = elim f.open_name [
  | none ↦ f
  | some name ↦ if f.failed then f else record f { written = f.written ++ (name, line) ∷ [] }
]

unfoldable pub get_level_string : LogLevel → Bytes
get_level_string LogLevel.debug = codes "DEBUG"
get_level_string LogLevel.info = codes "INFO "
get_level_string LogLevel.warn = codes "WARN "
get_level_string LogLevel.error = codes "ERROR"

-- The escape code 27 and the colour
unfoldable pub get_color_code : LogLevel → Bytes
get_color_code LogLevel.debug = 27 ∷ codes "[36m"
get_color_code LogLevel.info = 27 ∷ codes "[32m"
get_color_code LogLevel.warn = 27 ∷ codes "[33m"
get_color_code LogLevel.error = 27 ∷ codes "[31m"

-- A number as a stream writes it, before the digits `s`; a number has fewer digits than its value
-- and one.
abbrev decimal_loop : ℕ → ℕ → Bytes → Bytes
decimal_loop zero n s = s
decimal_loop (suc fuel) n s =
    let rest = decimal_loop fuel (n / 10) ((48 + n % 10) ∷ s) in
    if n / 10 == 0 then (48 + n % 10) ∷ s else rest

unfoldable pub decimal : ℕ → Bytes
decimal n = decimal_loop (n + 1) n []

-- A part that is left out for a negative number
abbrev pub number_part : Bytes → ℤ → Bytes
number_part name (pos n) = codes "[" ++ name ++ decimal n ++ codes "]"
number_part name (negsuc _) = []

-- The arguments of `log`, and the time at which it runs
pub record Call : Type 0 where
  level : LogLevel
  message : Bytes
  node_id : ℤ
  role : Bytes
  term : ℤ
  now : Bytes

unfoldable pub log_line : Call → Bytes
unfolding get_level_string decimal bytes_eq
log_line c =
    codes "["
    ++ c.now
    ++ codes "]["
    ++ get_level_string c.level
    ++ codes "]"
    ++ number_part (codes "Node ") c.node_id
    ++ (if bytes_eq c.role [] then [] else codes "[" ++ c.role ++ codes "]")
    ++ number_part (codes "Term ") c.term
    ++ codes ": "
    ++ c.message

-- The line on the console, between the codes of its colour
unfoldable pub coloured : Call → Bytes
unfolding get_color_code log_line
coloured c = get_color_code c.level ++ log_line c ++ 27 ∷ codes "[0m"

unfoldable pub log : Call → Logger → Logger
unfolding log_line coloured
log c l = if ltb (rank c.level) (rank l.min_level) then l else record l {
  stdout = if l.log_to_console then l.stdout ++ coloured c ∷ [] else l.stdout;
  log_file =
      if l.log_to_file && is_open l.log_file
      then write_line (log_line c) l.log_file
      else l.log_file;
}

-- The overloads: a message alone, one of a node, and one of a node with its role and term
abbrev pub plain : LogLevel → Bytes → Bytes → Call
plain level now message = record {
  level = level;
  message = message;
  node_id = negsuc 0;
  role = [];
  term = negsuc 0;
  now = now;
}

abbrev pub of_node : LogLevel → Bytes → ℕ → Bytes → Call
of_node level now id message = record (plain level now message) { node_id = pos id }

abbrev pub of_role : LogLevel → Bytes → ℕ → Bytes → ℕ → Bytes → Call
of_role level now id role term message = record (of_node level now id message) {
  role = role;
  term = pos term;
}

unfoldable pub init : (Bytes → Bool) → Bytes → LogLevel → Logger → Logger
unfolding bytes_eq
init opens filename level l =
    let l1 = record l { min_level = level; log_to_console = true } in
    let file = open_file opens filename l.log_file in
    if bytes_eq filename [] then record l1 { log_to_file = false } else record l1 {
      log_file = file;
      log_to_file = is_open file;
      stderr =
          if is_open file
          then l.stderr
          else l.stderr ++ (codes "Failed to open log file: " ++ filename) ∷ [];
    }

unfoldable pub close : Logger → Logger
close l =
    if is_open l.log_file then record l { log_file = record l.log_file { open_name = none } } else l

abbrev pub set_level : LogLevel → Logger → Logger
set_level level l = record l { min_level = level }

abbrev pub set_console_logging : Bool → Logger → Logger
set_console_logging enable l = record l { log_to_console = enable }
