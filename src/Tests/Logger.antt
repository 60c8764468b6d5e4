-- ===== src/Tests/Logger.antt =====
-- A test of the logger: a short line makes the file too large, and it is renamed.
use model_lib.Prelude.{◌+◌, ◌≤◌, refl, true, [], ◌∷◌, arith, if◌then◌else◌, ltb, length, inr, ◌++◌}
use model_lib.Prelude.Text.{codes, str_eq}
use model_lib.Logger.{Logger, Files, System, opened, debug, info, rank, make_line, logv}
use model_lib.Logger.Bounds.{IsWithin, IsFresh, Logs, logv-Logs}

abbrev log : Logger
log = record { fp = opened; level = debug; rotate_size = 20; w_curr = 3; w_total = 3 }

abbrev files : Files
files = record {
  current = codes "ab" ++ 10 ∷ [];
  older = (codes "log.20251231-235959", codes "x" ++ 10 ∷ []) ∷ [];
}

abbrev works : System
works = record { newpath = codes "log.20260101-000000"; renamed = true; reopened = true }

log-IsWithin : IsWithin log files
log-IsWithin = record { open_stream = refl; size = refl; small = inr (omega arith) }

other_second : IsFresh works.newpath files.older
unfolding str_eq
other_second = (refl, tt)

logv-Logs_example :
    (length (make_line info (codes "2026-01-01 ") (codes "started")) + 1 ≤ 4096)
    × Logs files
        (if ltb (rank debug) (rank info)
          then []
          else make_line info (codes "2026-01-01 ") (codes "started"))
        (logv works log files info (codes "2026-01-01 ") (codes "started"))
logv-Logs_example =
    logv-Logs works log files refl refl other_second log-IsWithin info (codes "2026-01-01 ")
      (codes "started") (omega arith) (omega arith)
