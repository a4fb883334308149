-- ===== src/SnapshotMake/Members.antt =====
-- assertSnapshotMembers of internal/operations/snapshot_make.go, and the manifest's entries.
use Prim.Native.String.{◌++◌}
use oddk.Base.{
  ℕ, Bool, true, false, not, ◌&&◌, ◌||◌, Option, none, some, List, [], ◌∷◌, String, str_eq, ◌==◌,
  any, all, if◌then◌else◌,
}
use oddk.S3Location.{cut_prefix}

abbrev pub snapshot_format_physical : String
snapshot_format_physical = "physical"

abbrev pub snapshot_format_logical : String
snapshot_format_logical = "logical"

-- Where a capture failed.
pub data Stage : Type 0 where
  decrypt_password base_backup cold_copy dump capture : Stage

-- The texts of `SkipReason`.
pub data SkipReason : Type 0 where
  no_container state_unknown container_gone unsettled needs_live : SkipReason
  failed : Stage → SkipReason

-- `none` is the empty reason.
pub record SnapshotInstanceEntry : Type 0 where
  pub name : String
  pub version : String
  pub image : String
  pub has_data : Bool
  pub format : String
  pub capture_mode : String
  pub skip_reason : Option SkipReason

unfoldable pub entry_format : SnapshotInstanceEntry → String
entry_format e =
    if str_eq e.format snapshot_format_physical
    then snapshot_format_physical
    else snapshot_format_logical

-- compression.Member
pub record Member : Type 0 where
  pub name : String
  pub size : ℕ
  pub is_dir : Bool

-- The values of `byName`: of the members of one name the last.
unfoldable pub by_name : List Member → List Member
by_name [] = []
by_name (m ∷ rest) =
    let later = by_name rest in if any (λ n. str_eq n.name m.name) later then later else m ∷ later

unfoldable pub first_file : List Member → Option String
first_file [] = none
first_file (m ∷ rest) =
    let later = first_file rest in if m.is_dir || str_eq m.name "" then later else some m.name

-- A map's entry with a size other than 0.
abbrev pub non_empty : List Member → String → Bool
non_empty members name = any (λ m. str_eq m.name name && not (m.size == 0)) members

abbrev pub has_prefix : String → String → Bool
has_prefix prefix s = elim (cut_prefix prefix s) [ none ↦ false | some rest ↦ true ]

abbrev pub base_of : SnapshotInstanceEntry → String
base_of e = "instances/" ++ e.name

abbrev pub physical_payload : List Member → SnapshotInstanceEntry → Bool
physical_payload members e =
    non_empty members (base_of e ++ "/basebackup/base.tar.zst")
    || non_empty members (base_of e ++ "/basebackup/base.tar")

abbrev pub logical_payload : List Member → SnapshotInstanceEntry → Bool
logical_payload members e =
    non_empty members (base_of e ++ "/globals.sql")
    && any
        (λ m. not m.is_dir && not (m.size == 0) && has_prefix (base_of e ++ "/databases/") m.name)
        members

unfoldable pub payload_passes : List Member → SnapshotInstanceEntry → Bool
unfolding entry_format
payload_passes members e =
    if str_eq (entry_format e) snapshot_format_physical
    then physical_payload members e
    else logical_payload members e

-- The body of the loop over the entries: true if it goes on.
unfoldable pub entry_passes : List Member → SnapshotInstanceEntry → Bool
unfolding payload_passes
entry_passes members e =
    non_empty members (base_of e ++ "/instance.json")
    && (not e.has_data || payload_passes members e)

abbrev pub is_manifest : Option String → Bool
is_manifest none = false
is_manifest (some name) = str_eq name "manifest.json"

-- `err == nil`. An archive without members has no first file.
unfoldable pub assert_snapshot_members : List Member → List SnapshotInstanceEntry → Bool
unfolding by_name first_file entry_passes
assert_snapshot_members members entries =
    is_manifest (first_file members)
    && non_empty (by_name members) "oddk.db"
    && all (entry_passes (by_name members)) entries
