-- ===== src/Logger.antt =====
-- `Logger` of ssdb/src/util/log.h and ssdb/src/util/log.cpp: lines of a bounded buffer, and a file that
-- is renamed when it has grown too large. What the C library and the system do is an argument of a call:
-- the date in front of a line, the text that `vsnprintf` has for it, the name that a rotation makes of the
-- time, and whether `rename` and `fopen` succeed. The mutex makes a call one step.
pub mod Bounds
use model_lib.Prelude.{
  ℕ, ◌+◌, ◌-◌, ◌%◌, ◌^◌, Option, none, some, Bool, true, false, ◌&&◌, List, [], ◌∷◌, ◌++◌, ltb, leb,
  ◌==◌, if◌then◌else◌, take, length,
}
use model_lib.Prelude.Int.{ℤ, pos, negsuc, ltb_ℤ}
use model_lib.Prelude.Text.{ByteString, codes, str_eq}
use model_lib.Util.Case.{strtolower}

-- `LEVEL_NONE` and so on.
pub data Level : Type 0 where
  none_level : Level
  fatal : Level
  error : Level
  warn : Level
  info : Level
  debug : Level
  trace : Level

unfoldable pub rank : Level → ℕ
rank none_level = 0
rank fatal = 1
rank error = 2
rank warn = 3
rank info = 4
rank debug = 5
rank trace = 6

-- `fp`: an open stream, one that was closed, or NULL.
pub data Stream : Type 0 where
  opened : Stream
  closed : Stream
  null : Stream

pub record Logger : Type 0 where
  pub fp : Stream
  pub level : Level
  pub rotate_size : ℕ
  pub w_curr : ℕ
  pub w_total : ℕ

-- The file under the log's name, and the renamed ones, the last one first, each with its name.
pub record Files : Type 0 where
  pub current : ByteString
  pub older : List (ByteString × ByteString)

-- `Logger::get_level`.
unfoldable pub get_level : ByteString → Level
get_level name =
    if str_eq (codes "trace") name
    then trace
    else if str_eq (codes "debug") name
    then debug
    else if str_eq (codes "info") name
    then info
    else if str_eq (codes "warn") name
    then warn
    else if str_eq (codes "error") name
    then error
    else if str_eq (codes "fatal") name
    then fatal
    else if str_eq (codes "none") name
    then none_level
    else debug

-- `set_log_level` of a name, in any case of letters.
unfoldable pub set_log_level : Logger → ByteString → Logger
set_log_level l s =
    let ss = strtolower s in
    record l {
      level =
          if str_eq ss (codes "fatal")
          then fatal
          else if str_eq ss (codes "error")
          then error
          else if str_eq ss (codes "warn")
          then warn
          else if str_eq ss (codes "info")
          then info
          else if str_eq ss (codes "debug")
          then debug
          else if str_eq ss (codes "trace")
          then trace
          else debug;
    }

-- `level_name`.
unfoldable pub level_name : Level → ByteString
level_name none_level = []
level_name fatal = codes "fatal"
level_name error = codes "error"
level_name warn = codes "warn"
level_name info = codes "info"
level_name debug = codes "debug"
level_name trace = codes "trace"

-- `get_level_name`, of which `logv` copies 8 bytes. No line is of LEVEL_NONE.
unfoldable pub get_level_name : Level → ByteString
get_level_name none_level = []
get_level_name fatal = codes "[FATAL] "
get_level_name error = codes "[ERROR] "
get_level_name warn = codes "[WARN ] "
get_level_name info = codes "[INFO ] "
get_level_name debug = codes "[DEBUG] "
get_level_name trace = codes "[TRACE] "

-- What the system says in a rotation. `newpath` is the file's name and the time, to the second.
pub record System : Type 0 where
  pub newpath : ByteString
  pub renamed : Bool
  pub reopened : Bool

-- `rename`: a file that has the new name already is gone.
abbrev pub without : ByteString → List (ByteString × ByteString) → List (ByteString × ByteString)
without name [] = []
without name ((other, text) ∷ files) =
    if str_eq other name then without name files else (other, text) ∷ without name files

unfoldable pub rotate : System → Logger → Files → Logger × Files
rotate sys l files =
    if sys.renamed
    then (
      if sys.reopened then record l { fp = opened; w_curr = 0 } else record l { fp = null },
      record {
        current = [];
        older = (sys.newpath, files.current) ∷ without sys.newpath files.older;
      },
    )
    else (record l { fp = closed }, files)

-- What `vsnprintf` leaves in `space` bytes, as far as the line goes on: of a text that does not fit,
-- the bytes that do and the NUL.
unfoldable pub printed : ℕ → ByteString → ByteString
printed space text = if ltb (length text) space then text else take (space - 1) text ++ 0 ∷ []

-- The line, without the NUL behind it. `buf` has 4096 bytes.
unfoldable pub make_line : Level → ByteString → ByteString → ByteString
unfolding printed
make_line level date text =
    date
    ++ (take 8 (get_level_name level) ++ (printed (4096 - (length date + 8) - 10) text ++ 10 ∷ []))

-- The result, and what it left; `none` is a write on a stream that is not open.
pub record Logged : Type 0 where
  pub result : ℕ
  pub logger : Logger
  pub files : Files

abbrev pub counted : Logger → ℕ → Logger
counted l len = record l {
  w_curr = (l.w_curr + len) % 2 ^ 64;
  w_total = (l.w_total + len) % 2 ^ 64;
}

unfoldable pub write_line : System → Logger → Files → ByteString → Stream → Option Logged
unfolding rotate
write_line sys l files line opened =
    let l' = counted l (length line) in
    let files' = record files { current = files.current ++ line } in
    let r = rotate sys l' files' in
    if ltb 0 l.rotate_size && ltb l.rotate_size l'.w_curr
    then some (record { result = length line; logger = r.0; files = r.1 })
    else some (record { result = length line; logger = l'; files = files' })
write_line sys l files line closed = none
write_line sys l files line null = none

unfoldable pub logv : System → Logger → Files → Level → ByteString → ByteString → Option Logged
unfolding make_line write_line
logv sys l files level date text =
    if ltb (rank l.level) (rank level)
    then some (record { result = 0; logger = l; files = files })
    else write_line sys l files (make_line level date text) l.fp
