-- ===== src/Log.antt =====
-- platform/app_log.c: the log of the program, one line for a record, in two files. The lock is held over a whole write,
-- so that a write is one step. What Windows answers to a call is a parameter, and so are the
-- formatting of the message by vswprintf and its encoding. GetLastError is restored and not modelled.
mod Lines
mod Files
mod Examples
use nova_desktop.Base.{
  ℕ, ◌+◌, ◌-◌, ◌*◌, Bool, true, false, ◌&&◌, ◌||◌, not, List, [], ◌∷◌, ◌++◌, Option, none, some,
  ltb, ◌==◌, if◌then◌else◌, length, take, replicate,
}
use nova_desktop.Text.{Text, codes}
use nova_desktop.Decimal.{to_decimal}

abbrev pub Bytes : Type 0
Bytes = List ℕ

abbrev pub log_limit : ℕ
log_limit = 2 * 1024 * 1024

abbrev pub record_size : ℕ
record_size = 4608

pub data NovaLogLevel : Type 0 where
  info warn error : NovaLogLevel

-- What stands under a path. Attributes that cannot be read for another reason than that nothing is there are `hidden`.
pub data Entry : Type 0 where
  absent hidden directory reparse : Entry
  plain : Bytes → Entry

abbrev pub plain_file : Entry → Bool
plain_file absent = true
plain_file hidden = false
plain_file directory = false
plain_file reparse = false
plain_file (plain bytes) = true

-- `ready` says that log_path is not empty.
pub record Log : Type 0 where
  pub ready : Bool
  pub current : Entry
  pub backup : Entry
  pub operation_sequence : ℕ

-- What Windows answers in one write: opening, the size, the rename, creating, seeking, and how many
-- bytes WriteFile has written.
pub record Answers : Type 0 where
  pub opens : Bool
  pub sizes : Bool
  pub moves : Bool
  pub creates : Bool
  pub seeks : Bool
  pub written : ℕ

-- The time, the process, the thread and the encoding of a message; none where it has no encoding.
pub record Surroundings : Type 0 where
  pub year : ℕ
  pub month : ℕ
  pub day : ℕ
  pub hour : ℕ
  pub minute : ℕ
  pub second : ℕ
  pub milliseconds : ℕ
  pub process : ℕ
  pub thread : ℕ
  pub utf8 : Text → Option Bytes

-- `directory` is none for a null pointer; the two flags say that the folder is there and that it is a folder.
unfoldable pub nova_log_init : Option Text → Bool → Bool → Log → Bool × Log
nova_log_init none created is_folder log = (false, record log { ready = false })
nova_log_init (some path) created is_folder log =
    let ok : Bool =
      not (length path == 0)
      && ltb (length path) (2048 - 32)
      && created
      && is_folder
      && plain_file log.current
      && plain_file log.backup in
    (ok, record log { ready = ok })

unfoldable pub nova_log_close : Log → Log
nova_log_close log = record log { ready = false }

unfoldable pub single_line : Bytes → Bytes
single_line [] = []
single_line (b ∷ bs) = (if ltb b 32 || b == 127 then 32 else b) ∷ single_line bs

-- `%0<width>u`
unfoldable pub padded : ℕ → ℕ → Bytes
padded width n = replicate (width - length (to_decimal n)) b'0' ++ to_decimal n

abbrev pub severity : NovaLogLevel → Bytes
severity info = codes "INFO"
severity warn = codes "WARN"
severity error = codes "ERROR"

abbrev pub or_text : Bytes → Option Bytes → Bytes
or_text default none = default
or_text default (some text) = text

-- The message as vswprintf has it; none where it is refused.
abbrev pub message_of : Option Text → Text
message_of none = codes "record_truncated=1"
message_of (some message) = message

unfoldable pub joined : List Bytes → Bytes
joined [] = []
joined (piece ∷ pieces) = piece ++ joined pieces

-- `%04u-%02u-%02uT%02u:%02u:%02u.%03uZ`
abbrev pub stamp : Surroundings → List Bytes
stamp now =
    padded 4 now.year
    ∷ codes "-"
    ∷ padded 2 now.month
    ∷ codes "-"
    ∷ padded 2 now.day
    ∷ codes "T"
    ∷ padded 2 now.hour
    ∷ codes ":"
    ∷ padded 2 now.minute
    ∷ codes ":"
    ∷ padded 2 now.second
    ∷ codes "."
    ∷ padded 3 now.milliseconds
    ∷ codes "Z"
    ∷ []

abbrev pub pieces : Surroundings → NovaLogLevel → Option Bytes → Option Bytes → Bytes → List Bytes
pieces now level component event utf =
    stamp now
    ++ (codes " pid="
        ∷ to_decimal now.process
        ∷ codes " tid="
        ∷ to_decimal now.thread
        ∷ codes " level="
        ∷ severity level
        ∷ codes " component="
        ∷ single_line (take 47 (or_text (codes "app") component))
        ∷ codes " event="
        ∷ single_line (take 63 (or_text (codes "event") event))
        ∷ codes " "
        ∷ single_line utf
        ∷ [])

-- The line without its end.
unfoldable pub record_of : Surroundings → NovaLogLevel → Option Bytes → Option Bytes → Bytes → Bytes
unfolding padded single_line joined
record_of now level component event utf = joined (pieces now level component event utf)

abbrev pub line_end : Bytes
line_end = 13 ∷ 10 ∷ []

abbrev pub content : Entry → Bytes
content absent = []
content hidden = []
content directory = []
content reparse = []
content (plain bytes) = bytes

-- What the write has put behind the bytes of a file.
abbrev pub appended : Answers → Bytes → Bytes → Entry
appended a line bytes = plain (if a.seeks then bytes ++ take a.written line else bytes)

-- The file becomes the backup, and an empty one takes its place.
abbrev pub rotated : Answers → Bytes → Bytes → Log → Log
rotated a line bytes log =
    if not a.moves
    then record log { current = plain bytes }
    else if not a.creates
    then record log { current = absent; backup = plain bytes }
    else record log { current = appended a line []; backup = plain bytes }

abbrev pub opened : Answers → Bytes → Bytes → Log → Log
opened a line bytes log =
    if not a.sizes
    then record log { current = plain bytes }
    else if ltb log_limit (length bytes + length line)
    then rotated a line bytes log
    else record log { current = appended a line bytes }

-- The conditions before the file is open, and that it opens.
abbrev pub writable : Answers → Bytes → Log → Bool
writable a line log =
    log.ready
    && not (length line == 0)
    && ltb (length line) record_size
    && plain_file log.current
    && plain_file log.backup
    && a.opens

unfoldable pub write_line : Answers → Bytes → Log → Log
write_line a line log = if writable a line log then opened a line (content log.current) log else log

abbrev pub written_line :
    Surroundings → Answers → NovaLogLevel → Option Bytes → Option Bytes → Option Bytes → Log → Log
written_line now a level component event none log = log
written_line now a level component event (some utf) log =
    write_line a (record_of now level component event utf ++ line_end) log

unfoldable pub nova_log_write :
    Surroundings → Answers → NovaLogLevel → Option Bytes → Option Bytes → Option Text → Log → Log
unfolding write_line record_of
nova_log_write now a level component event message =
    written_line now a level component event (now.utf8 (message_of message))

-- ERROR_CANCELLED is 1223.
abbrev end_level : Bool → ℕ → NovaLogLevel
end_level ok code = if ok then info else if code == 1223 then warn else error

abbrev flag : Bool → Text
flag b = if b then codes "1" else codes "0"

-- The new operation, with the number that its lines carry, at most 2^31 of which are begun.
unfoldable pub nova_log_begin : Surroundings → Answers → Bytes → Bytes → ℕ → Log → ℕ × Log
unfolding nova_log_write
nova_log_begin now a component action parent log =
    let id : ℕ = log.operation_sequence + 1 in
    (
      id,
      nova_log_write now a info (some component) (some (codes "op_begin"))
          (some (
            codes "op="
            ++ to_decimal id
            ++ codes " parent="
            ++ to_decimal parent
            ++ codes " action="
            ++ action))
          (record log { operation_sequence = id }),
    )

unfoldable pub nova_log_end :
    Surroundings → Answers → ℕ → Bytes → Bytes → ℕ → Bool → ℕ → Log → Bool × Log
unfolding nova_log_write
nova_log_end now a id component action elapsed ok code log = (
  ok,
  nova_log_write now a (end_level ok code) (some component) (some (codes "op_end"))
      (some (
        codes "op="
        ++ to_decimal id
        ++ codes " action="
        ++ action
        ++ codes " ok="
        ++ flag ok
        ++ codes " code="
        ++ to_decimal code
        ++ codes " elapsed_ms="
        ++ to_decimal elapsed))
      log,
)
