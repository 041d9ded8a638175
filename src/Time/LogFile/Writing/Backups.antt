-- ===== src/Time/LogFile/Writing/Backups.antt =====
-- Which files there are on the disk.
use mathlib.Core.Path.{subst}
use huicpp.Base.{
  ℕ, ◌+◌, ◌-◌, ◌≤◌, ◌≡◌, refl, sym, ◌∙◌, arith, List, [], ◌∷◌, ◌++◌, length, length-append, All,
  Among, true, ltb, ◌==◌, Bool-cases, inl, inr, ◌⊎◌,
}
use huicpp.Time.{Tm}
use huicpp.Time.LogFile.{day, get_file_name, Strategy, rollback}
use huicpp.Time.LogFile.Writing.{
  Name, LogFile, default_backup_log_count, bak, pop_oldest, limit_backups, roll_back, write_log,
  Message, write_all, init_log,
}
use huicpp.Time.LogFile.Writing.Disk.{
  Disk, empty_disk, disk_system, has_file, without, rename_file, All-without, All-mono,
}
use huicpp.Time.LogFile.Writing.Journal.{name_at, rolled, do_rollback-true, roll_back-cases}

Among-front : (x : Name) (xs ys : List Name) → Among x xs → Among x (xs ++ ys)
Among-front x [] ys m = absurd m
Among-front x (y ∷ xs) ys (inl e) = inl e
Among-front x (y ∷ xs) ys (inr m) = inr (Among-front x xs ys m)

Among-end : (x : Name) (xs : List Name) → Among x (xs ++ (x ∷ []))
Among-end x [] = inl refl
Among-end x (y ∷ xs) = inr (Among-end x xs)

-- Each file is the current one or one of the backups.
abbrev pub Kept : Name → List Name → List Name → Type 0
Kept current logs files = All (λ n. (n ≡ current) ⊎ Among n logs) files

-- The file is renamed to its backup once the next one is open.
rename_file-Kept :
    (old new name : Name) (logs : List Name) (d : Disk)
    → Kept old logs d.files
    → Kept name (logs ++ (new ∷ [])) (rename_file old new (disk_system.open_file name d)).files
unfolding rename_file
rename_file-Kept old new name logs d h =
    let logs' = logs ++ (new ∷ []) in
    let files = name ∷ without name d.files in
    let opened : All (λ n. (n ≡ old) ⊎ ((n ≡ name) ⊎ Among n logs')) files = (
      inr (inl refl),
      All-mono _ (All-without _ name d.files h)
          (λ n x. elim x.0 [ inl e ↦ inl e | inr m ↦ inr (inr (Among-front n logs (new ∷ []) m)) ]),
    ) in
    let rest : Kept name logs' (without old files) =
      All-mono _ (All-without _ old files opened)
        (λ n x. elim x.0 [ inl e ↦ absurd (x.1 e) | inr m ↦ m ]) in
    elim (Bool-cases (has_file old files)) [
      | inl y ↦ rw y (
        inr (Among-end new logs),
        All-mono _ (All-without _ new (without old files) rest) (λ n x. x.0),
      )
      | inr n ↦ rw n rest
    ]

pop_oldest-Kept :
    (name : Name) (logs : List Name) (d : Disk)
    → Kept name logs d.files
    → let r = pop_oldest disk_system logs d in
      Kept name r.0 r.1.files × (length r.0 ≡ length logs - 1)
unfolding pop_oldest
pop_oldest-Kept name [] d h = (h, refl)
pop_oldest-Kept name (x ∷ logs) d h = (
  All-mono _ (All-without _ x d.files h)
      (λ n z. elim z.0 [ inl e ↦ inl e | inr (inl e) ↦ absurd (z.1 e) | inr (inr m) ↦ inr m ]),
  omega arith,
)

limit_backups-Kept :
    (value : ℕ) (name : Name) (logs : List Name) (d : Disk)
    → value ≡ day
    → length logs ≤ default_backup_log_count + 1
    → Kept name logs d.files
    → let r = limit_backups disk_system value logs d in
      Kept name r.0 r.1.files × (length r.0 ≤ default_backup_log_count)
unfolding limit_backups
limit_backups-Kept value name logs d v l h =
    let is_day : (value == day) ≡ true = ground (arith, v) in
    let (k, e) = pop_oldest-Kept name logs d h in
    elim (Bool-cases (ltb default_backup_log_count (length logs))) [
      | inl t ↦ rw (t, is_day) (k, omega (arith, e, l))
      | inr t ↦ rw t (h, ground (arith, t))
    ]

-- The disk of a log that rolls over by the day.
pub record IsBounded (f : LogFile Disk) : Type 0 where
  pub by_day : f.roll_strategy.value ≡ day
  pub few : length f.backup_logs ≤ default_backup_log_count
  pub kept : Kept (name_at f.roll_strategy f.roll_strategy.mt_time) f.backup_logs f.disk.files

rolled-IsBounded :
    (now : Tm) (f : LogFile Disk) → IsBounded f → IsBounded (rolled disk_system now f)
rolled-IsBounded now f b =
    let s = f.roll_strategy in
    let new = get_file_name s.value s.filename bak s.mt_time in
    let logs = f.backup_logs ++ (new ∷ []) in
    let d = rename_file (name_at s s.mt_time) new (disk_system.open_file (name_at s now) f.disk) in
    let count : length logs ≤ default_backup_log_count + 1 =
      omega (arith, length-append f.backup_logs (new ∷ []), b.few) in
    let (k, l) =
      limit_backups-Kept s.value (name_at s now) logs d b.by_day count
        (rename_file-Kept (name_at s s.mt_time) new (name_at s now) f.backup_logs f.disk b.kept) in
    record { by_day = b.by_day; few = l; kept = k }

write_log-IsBounded :
    (m : Message) (f : LogFile Disk)
    → IsBounded f
    → IsBounded (write_log disk_system m.mt m.now m.text f)
unfolding write_log
write_log-IsBounded m f b = written (elim (roll_back-cases disk_system m.mt m.now f) [
  | inl (y, e) ↦
      subst IsBounded (sym (do_rollback-true disk_system m.mt m.now f y) ∙ e)
        (rolled-IsBounded m.now f b)
  | inr (n, e) ↦ subst IsBounded e b
])
  where
    written :
        IsBounded (roll_back disk_system m.mt m.now f)
        → IsBounded (write_log disk_system m.mt m.now m.text f)
    written r = record { by_day = r.by_day; few = r.few; kept = r.kept }

write_all-kept :
    (ms : List Message) (f : LogFile Disk) → IsBounded f → IsBounded (write_all disk_system ms f)
unfolding write_all
write_all-kept [] f b = b
write_all-kept (m ∷ ms) f b =
    write_all-kept ms (write_log disk_system m.mt m.now m.text f) (write_log-IsBounded m f b)

-- A log that rolls over by the day, from Init on an empty disk on: whatever the messages and the times,
-- there are seven backups at most, and each file on the disk is one of them or the current one.
pub write_all-IsBounded :
    (s : Strategy) (now : Tm) (ms : List Message)
    → s.value ≡ day
    → IsBounded (
        write_all disk_system ms (
          init_log disk_system now
            (record { roll_strategy = s; backup_logs = []; disk = empty_disk })))
unfolding init_log rollback without
write_all-IsBounded s now ms v =
    write_all-kept ms
      (init_log disk_system now (record { roll_strategy = s; backup_logs = []; disk = empty_disk }))
      (record { by_day = v; few = omega arith; kept = (inl refl, tt) })
