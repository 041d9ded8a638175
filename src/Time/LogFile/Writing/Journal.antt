-- ===== src/Time/LogFile/Writing/Journal.antt =====
-- Which file each message is written to.
use huicpp.Base.{
  ℕ, ◌≡◌, refl, List, [], ◌∷◌, ◌++◌, map, All, true, false, Bool-cases, inl, inr, ◌⊎◌, Option, some,
}
use huicpp.Time.{Tm}
use huicpp.Time.LogFile.{need_rollback, get_file_name, Strategy, rollback}
use huicpp.Time.LogFile.Periods.{IsTm}
use huicpp.Time.LogFile.Writing.{
  Name, FileSystem, LogFile, bak, limit_backups, do_rollback, roll_back, Message,
}
use huicpp.Time.LogFile.Writing.Disk.{Disk}

-- A message that is written in the period in which it was made.
pub record IsOnTime (value : ℕ) (m : Message) : Type 0 where
  pub made : IsTm m.mt
  pub written : IsTm m.now
  pub same_period : need_rollback value m.now m.mt ≡ false

-- The name of the file for the period of `t`.
abbrev pub name_at : Strategy → Tm → Name
name_at s t = get_file_name s.value s.filename [] t

abbrev IsBackup : Strategy → Name → Type 0
IsBackup s n = (t : Tm) × IsTm t × (n ≡ get_file_name s.value s.filename bak t)

-- The file of the strategy's time is open under its name, and no backup has it.
record IsOpen (s : Strategy) (f : LogFile Disk) : Type 0 where
  strategy : f.roll_strategy ≡ record s { mt_time = f.roll_strategy.mt_time }
  time : IsTm f.roll_strategy.mt_time
  opened : f.disk.open_name ≡ some (name_at s f.roll_strategy.mt_time)
  backups : All (IsBackup s) f.backup_logs

-- What is left open when the backups are limited.
abbrev Still : Strategy → Tm → Disk → List Name × Disk → Type 0
Still s t d r =
    All (IsBackup s) r.0 × (r.1.open_name ≡ some (name_at s t)) × (r.1.written ≡ d.written)

-- The file after a roll-over that is needed.
abbrev pub rolled : {D : Type 0} → FileSystem D → Tm → LogFile D → LogFile D
rolled fs now f =
    let s = f.roll_strategy in
    let new = get_file_name s.value s.filename bak s.mt_time in
    let d = fs.rename (name_at s s.mt_time) new (fs.open_file (name_at s now) f.disk) in
    let r = limit_backups fs s.value (f.backup_logs ++ (new ∷ [])) d in
    record { roll_strategy = record s { mt_time = now }; backup_logs = r.0; disk = r.1 }

pub do_rollback-true :
    {D : Type 0}
    → (fs : FileSystem D) (mt now : Tm) (f : LogFile D)
    → need_rollback f.roll_strategy.value f.roll_strategy.mt_time mt ≡ true
    → do_rollback fs mt now f ≡ rolled fs now f
unfolding do_rollback rollback
do_rollback-true fs mt now f y = rw y refl

-- What a step of rolling over owes: the file of the message's period is open under its name.
abbrev Opens : Strategy → Message → LogFile Disk → LogFile Disk → Type 0
Opens s m f g =
    IsOpen s g × (g.disk.open_name ≡ some (name_at s m.mt)) × (g.disk.written ≡ f.disk.written)

pub roll_back-cases :
    {D : Type 0}
    → (fs : FileSystem D) (mt now : Tm) (f : LogFile D)
    → ((need_rollback f.roll_strategy.value f.roll_strategy.mt_time mt ≡ true)
        × (do_rollback fs mt now f ≡ roll_back fs mt now f))
      ⊎ ((need_rollback f.roll_strategy.value f.roll_strategy.mt_time mt ≡ false)
          × (f ≡ roll_back fs mt now f))
unfolding roll_back
roll_back-cases fs mt now f =
    elim (Bool-cases (need_rollback f.roll_strategy.value f.roll_strategy.mt_time mt)) [
      | inl y ↦ inl (y, rw y refl)
      | inr n ↦ inr (n, rw n refl)
    ]

-- What is written for the messages.
abbrev pub records : Strategy → List Message → List (Option Name × Name)
records s ms = map (λ m. (some (name_at s m.mt), m.text)) ms
