-- ===== src/Time/LogFile/Writing.antt =====
-- LogFile of src/detail/log/logfile_detail: a log file that rolls over. The calls of the system are a
-- parameter; the time of a message and the clock are their local times. The mutex makes one step of a
-- roll-over.
pub mod Disk
pub mod Journal
pub mod Backups
use huicpp.Base.{
  ℕ, zero, suc, ◌+◌, ◌<◌, ◌≤◌, ◌≡◌, ◌↔◌, refl, sym, ap, ap₂, ◌∙◌, arith, List, [], ◌∷◌, ◌++◌,
  length, length-append, append_assoc, map, All, Bool, true, false, ◌&&◌, if◌then◌else◌, ltb, ◌==◌,
  Bool-cases, inl, inr,
}
use huicpp.Time.{Tm}
use huicpp.Time.LogFile.{day, need_rollback, get_file_name, Strategy, rollback}
use huicpp.Time.LogFile.Periods.{IsTm}
use huicpp.Time.LogFile.Names.{need_rollback-get_file_name}

abbrev pub Name : Type 0
Name = List ℕ

-- Open and Dup2 make a file the one that WriteString writes to; the results are ignored by the code.
pub record FileSystem (D : Type 0) : Type 0 where
  pub open_file : Name → D → D
  pub write_string : Name → D → D
  pub rename : Name → Name → D → D
  pub remove_file : Name → D → D

pub record LogFile (D : Type 0) : Type 0 where
  pub roll_strategy : Strategy
  pub backup_logs : List Name
  pub disk : D

abbrev pub default_backup_log_count : ℕ
default_backup_log_count = 7

-- "bak".
abbrev pub bak : Name
bak = 98 ∷ 97 ∷ 107 ∷ []

module _ {D : Type 0} (fs : FileSystem D) where
  unfoldable pub init_log : Tm → LogFile D → LogFile D
  unfolding rollback
  init_log now f =
      let (name, s) = rollback now f.roll_strategy in
      record f { roll_strategy = s; disk = fs.open_file name f.disk }

  -- The oldest backup goes.
  unfoldable pub pop_oldest : List Name → D → List Name × D
  pop_oldest [] d = ([], d)
  pop_oldest (old ∷ logs) d = (logs, fs.remove_file old d)

  unfoldable pub limit_backups : ℕ → List Name → D → List Name × D
  unfolding pop_oldest
  limit_backups value logs d =
      if ltb default_backup_log_count (length logs) && (value == day)
      then pop_oldest logs d
      else (logs, d)

  unfoldable pub do_rollback : Tm → Tm → LogFile D → LogFile D
  unfolding rollback need_rollback get_file_name limit_backups
  do_rollback mt now f =
      let s = f.roll_strategy in
      if need_rollback s.value s.mt_time mt
      then (let src = get_file_name s.value s.filename [] s.mt_time in
          let new = get_file_name s.value s.filename bak s.mt_time in
          let (name, s') = rollback now s in
          let d = fs.rename src new (fs.open_file name f.disk) in
          let (logs', d') = limit_backups s'.value (f.backup_logs ++ (new ∷ [])) d in
          record { roll_strategy = s'; backup_logs = logs'; disk = d' })
      else f

  unfoldable pub roll_back : Tm → Tm → LogFile D → LogFile D
  unfolding do_rollback
  roll_back mt now f =
      if need_rollback f.roll_strategy.value f.roll_strategy.mt_time mt
      then do_rollback mt now f
      else f

  -- Write of a message with its time, at the time `now`.
  unfoldable pub write_log : Tm → Tm → Name → LogFile D → LogFile D
  unfolding roll_back
  write_log mt now message f =
      let f' = roll_back mt now f in record f' { disk = fs.write_string message f'.disk }

-- A message that is written: its time, the time of the clock, and its text.
pub record Message : Type 0 where
  pub mt : Tm
  pub now : Tm
  pub text : Name

unfoldable pub write_all : {D : Type 0} → FileSystem D → List Message → LogFile D → LogFile D
unfolding write_log
write_all fs [] f = f
write_all fs (m ∷ ms) f = write_all fs ms (write_log fs m.mt m.now m.text f)
