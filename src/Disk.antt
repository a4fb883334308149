-- ===== src/Disk.antt =====
-- The file system as retention sees it: what `os.Stat` and `os.Remove` report for a path.
-- `localArchivePresent` is from internal/operations/retention.go.
use Prim.Native.Char.{code}
use Prim.Native.String.{◌++◌}
use oddk.Base.{Bool, true, false, not, ◌&&◌, String, str_eq, ◌==◌, if◌then◌else◌}

-- `failed` is any error but "does not exist".
pub data Stat : Type 0 where
  found not_exist failed : Stat

abbrev pub Disk : Type 0
Disk = String → Stat

abbrev pub set_stat : Disk → String → Stat → Disk
set_stat disk path s p = if str_eq path p then s else disk p

-- Absent only if the file is definitely not there.
abbrev pub seems_present : Stat → Bool
seems_present found = true
seems_present not_exist = false
seems_present failed = true

-- `filepath.IsAbs` on the daemon's (Unix) paths.
abbrev pub is_abs : String → Bool
is_abs String.[] = false
is_abs (String.◌∷◌ c rest) = code c == b'/'

-- `filepath.Join(dataDir, path)`; the clean-up of `.` and doubled slashes names the same file.
abbrev pub resolve : String → String → String
resolve data_dir location =
    if not (is_abs location) && not (str_eq data_dir "")
    then data_dir ++ "/" ++ location
    else location

unfoldable pub local_archive_present : Disk → String → String → Bool
local_archive_present disk data_dir location =
    if str_eq location "" then false else seems_present (disk (resolve data_dir location))

-- `err := os.Remove(path); err == nil || os.IsNotExist(err)`, with the disk afterwards. The first
-- argument says for which paths the system refuses the removal.
unfoldable pub remove_file : (String → Bool) → Disk → String → Bool × Disk
remove_file refused disk path = elim (disk path) [
  | not_exist ↦ (true, disk)
  | _ ↦ if refused path then (false, disk) else (true, set_stat disk path not_exist)
]
