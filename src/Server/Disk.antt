-- ===== src/Server/Disk.antt =====
-- Writing to the log file of the day: `server_open_log_file`, `server_write_entry_to_file`,
-- `server_store_log`.
use vector_clock_good.Server.State.{Server, Answer, is_open, incr}
use vector_clock_good.Common.{
  ℕ, ◌+◌, Bool, true, false, not, ◌&&◌, ◌||◌, Option, none, some, List, [], ◌∷◌, ◌++◌, ltb,
  if◌then◌else◌, length, take, Bytes, codes, str_eq, strcmp,
}
use vector_clock_good.Entry.{LogEntry}
use vector_clock_good.Entry.Json as EntryJson

-- A line behind what was written, if a file is open.
abbrev append_line : Option Bytes → Bytes → List (Bytes × Bytes) → List (Bytes × Bytes)
append_line none line disk = disk
append_line (some path) line disk = disk ++ (path, line) ∷ []

unfoldable pub write_text : Option Bytes → Server → Bool × Server
write_text none s = (false, s)
write_text (some text) s =
    if ltb 0 (length text)
    then (true, record s { disk = append_line s.log_fp text s.disk })
    else (false, s)

unfoldable pub when_open : LogEntry → Bool × Server → Bool × Server
unfolding write_text
when_open e (false, s) = (false, s)
when_open e (true, s) = write_text (EntryJson.to_json e 4096) s

-- `env` answers the calls in order.
module _ (env : ℕ → Answer) where
  unfoldable pub open_log_file : Server → Bool × Server
  unfolding strcmp
  open_log_file s =
      let answer = env s.calls in
      let s' : Server = record s { calls = s.calls + 1 } in
      let path = take 511 (s.config.storage_dir ++ (b'/' ∷ (answer.today ++ codes ".jsonl"))) in
      if is_open s.log_fp && str_eq s.current_date answer.today
      then (true, s')
      else if not answer.has_directory || not answer.has_file
      then (false, record s' { log_fp = none })
      else (true, record s' { log_fp = some path; current_date = take 15 answer.today })

  -- True where the source returns 0. A write to an open file is taken to succeed.
  unfoldable pub write_entry_to_file : Server → LogEntry → Bool × Server
  unfolding open_log_file when_open
  write_entry_to_file s e = when_open e (open_log_file s)

  -- `server_store_log`, on a text of positive length
  unfoldable pub store_log : Server → Bytes → Bool × Server
  unfolding open_log_file
  store_log s json =
      let s' = (open_log_file s).1 in
      if not (is_open s'.log_fp) then (false, s') else (
        true,
        record s' {
          disk = append_line s'.log_fp json s'.disk;
          stats = record (s'.stats) { total_stored = incr s'.stats.total_stored };
        },
      )
