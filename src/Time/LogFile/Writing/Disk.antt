-- ===== src/Time/LogFile/Writing/Disk.antt =====
-- A disk as LogFile uses it: names of files, the file that is open, and what was written. The open file
-- keeps its messages when its name changes.
use huicpp.Base.{
  ◌≡◌, ◌≢◌, refl, ap, arith, List, [], ◌∷◌, ◌++◌, Bool, false, ◌||◌, if◌then◌else◌, Bool-cases, inl,
  inr, Option, none, some, All,
}
use huicpp.Str.Equal.{same_str, same_str_eq, same_str_refl}
use huicpp.Time.LogFile.Writing.{Name, FileSystem}

-- `open_name` is the name that the open file has; `none`: it has none any more. Each message comes with
-- the name that the open file had.
pub record Disk : Type 0 where
  pub open_name : Option Name
  pub files : List Name
  pub written : List (Option Name × Name)

abbrev pub empty_disk : Disk
empty_disk = record { open_name = none; files = []; written = [] }

unfoldable pub has_file : Name → List Name → Bool
unfolding same_str
has_file n [] = false
has_file n (x ∷ xs) = same_str x n || has_file n xs

unfoldable pub without : Name → List Name → List Name
unfolding same_str
without n [] = []
without n (x ∷ xs) = let rest = without n xs in if same_str x n then rest else x ∷ rest

-- The name of the open file when a file loses its name.
unfoldable pub unnamed : Name → Option Name → Option Name
unfolding same_str
unnamed n none = none
unnamed n (some x) = if same_str x n then none else some x

-- The name of the open file when `src` is renamed; a file that has the new name loses it.
unfoldable pub renamed : Name → Name → Option Name → Option Name
unfolding unnamed same_str
renamed src new none = none
renamed src new (some x) = if same_str x src then some new else unnamed new (some x)

unfoldable pub rename_file : Name → Name → Disk → Disk
unfolding has_file without renamed
rename_file src new d =
    if has_file src d.files
    then record d {
      open_name = renamed src new d.open_name;
      files = new ∷ without new (without src d.files);
    }
    else record d { files = without src d.files }

abbrev pub disk_system : FileSystem Disk
disk_system = record {
  open_file = λ name d. record d { open_name = some name; files = name ∷ without name d.files };
  write_string = λ text d. record d { written = d.written ++ ((d.open_name, text) ∷ []) };
  rename = rename_file;
  remove_file =
      λ name d. record d { open_name = unnamed name d.open_name; files = without name d.files };
}

pub differ : (x y : Name) → x ≢ y → same_str x y ≡ false
differ x y h = elim (Bool-cases (same_str x y)) [
  | inl e ↦ absurd (h (same_str_eq x y e))
  | inr n ↦ n
]

pub differ-ne : (x y : Name) → same_str x y ≡ false → x ≢ y
differ-ne x y n e = absurd (ground (arith, n, e, same_str_refl y, ap (λ z. same_str z y) e))

pub unnamed-other : (n x : Name) → x ≢ n → unnamed n (some x) ≡ some x
unfolding unnamed
unnamed-other n x h = rw (differ x n h) refl

pub rename_file-open :
    (src new x : Name) (d : Disk)
    → d.open_name ≡ some x
    → x ≢ src
    → x ≢ new
    → ((rename_file src new d).open_name ≡ some x) × ((rename_file src new d).written ≡ d.written)
unfolding rename_file
rename_file-open src new x d o h k = elim (Bool-cases (has_file src d.files)) [
  | inl y ↦ (rw (y, o) (unfold renamed in rw (differ x src h) (unnamed-other new x k)), rw y refl)
  | inr n ↦ (rw n o, rw n refl)
]

-- What is left without a name keeps what was so of all, and has another name.
pub All-without :
    (P : Name → Type 0) (n : Name) (xs : List Name)
    → All P xs
    → All (λ x. P x × (x ≢ n)) (without n xs)
unfolding without
All-without P n [] h = tt
All-without P n (x ∷ xs) (h, hs) = elim (Bool-cases (same_str x n)) [
  | inl y ↦ rw y (All-without P n xs hs)
  | inr f ↦ rw f ((h, differ-ne x n f), All-without P n xs hs)
]

pub All-mono :
    {P Q : Name → Type 0} (xs : List Name) → All P xs → ((x : Name) → P x → Q x) → All Q xs
All-mono [] h f = tt
All-mono (x ∷ xs) (h, hs) f = (f x h, All-mono xs hs f)
