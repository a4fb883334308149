-- ===== src/SnapshotMake/Archive.antt =====
-- What the check of a written archive asserts.
use Prim.Native.String.{◌++◌}
use oddk.Base.{
  ◌≡◌, ◌≢◌, ◌↔◌, refl, sym, ap, ◌⊎◌, Bool, true, false, not, ◌&&◌, ◌||◌, List, [], ◌∷◌, String,
  str_eq, ◌==◌, any, arith, Bool-cases, Option-cases, inl, inr, eq_iff, Memᴰ, All, Distinct,
  any_iff, all_iff, str_eq→eq, eq→str_eq, ne→str_eq, All-of, All-at, any-none, if◌then◌else◌,
}
use oddk.S3Location.{cut_prefix}
use oddk.S3Location.RoundTrip.{cut_prefix-append, cut_prefix-eq}
use oddk.SnapshotMake.Members.{
  Member, SnapshotInstanceEntry, by_name, first_file, non_empty, has_prefix, base_of,
  physical_payload, logical_payload, entry_passes, entry_format, payload_passes, is_manifest,
  assert_snapshot_members, snapshot_format_physical,
}

-- The archive has a member of this name that is not empty.
abbrev pub Holds : List Member → String → Type 0
Holds members name = (m : Member) × Memᴰ m members × ((m.name ≡ name) × (m.size ≢ 0))

-- The archive has a file below this prefix that is not empty.
abbrev pub HoldsBelow : List Member → String → Type 0
HoldsBelow members prefix =
    (m : Member) × Memᴰ m members
    × ((m.is_dir ≡ false) × (m.size ≢ 0) × ((rest : String) × (m.name ≡ prefix ++ rest)))

-- The data of an entry, by its format.
abbrev pub HoldsData : List Member → SnapshotInstanceEntry → Type 0
HoldsData members e =
    (e.format ≡ snapshot_format_physical
      → Holds members (base_of e ++ "/basebackup/base.tar.zst")
        ⊎ Holds members (base_of e ++ "/basebackup/base.tar"))
    × (e.format ≢ snapshot_format_physical
        → Holds members (base_of e ++ "/globals.sql")
          × HoldsBelow members (base_of e ++ "/databases/"))

abbrev pub HoldsEntry : List Member → SnapshotInstanceEntry → Type 0
HoldsEntry members e =
    Holds members (base_of e ++ "/instance.json") × (e.has_data ≡ true → HoldsData members e)

-- The first file is the manifest: what stands before it are directories, or has no name.
pub data StartsWithManifest : List Member → Type 0 where
  here :
      (m : Member) (rest : List Member)
      → m.is_dir ≡ false
      → m.name ≡ "manifest.json"
      → StartsWithManifest (m ∷ rest)
  later :
      (m : Member) (rest : List Member)
      → (m.is_dir || str_eq m.name "") ≡ true
      → StartsWithManifest rest
      → StartsWithManifest (m ∷ rest)

non_empty_iff :
    (members : List Member) (name : String) → (non_empty members name ≡ true) ↔ Holds members name
non_empty_iff members name =
    any_iff (λ m. str_eq m.name name && not (m.size == 0)) (λ m. (m.name ≡ name) × (m.size ≢ 0))
      members (λ m. ground (arith, eq_iff m.name name))

has_prefix_iff :
    (prefix s : String) → (has_prefix prefix s ≡ true) ↔ ((rest : String) × (s ≡ prefix ++ rest))
has_prefix_iff prefix s = elim (Option-cases (cut_prefix prefix s)) [
  | inl e ↦ (
    λ h. absurd (ground arith),
    λ (rest, q). absurd (ground (arith, cut_prefix-append prefix rest)),
  )
  | inr (rest, e) ↦ (λ h. (rest, cut_prefix-eq prefix s rest e), λ h. ground arith)
]

any-HoldsBelow :
    (members : List Member) (prefix : String)
    → (any (λ m. not m.is_dir && not (m.size == 0) && has_prefix prefix m.name) members ≡ true)
      ↔ HoldsBelow members prefix
any-HoldsBelow members prefix =
    any_iff (λ m. not m.is_dir && not (m.size == 0) && has_prefix prefix m.name)
      (λ m. (m.is_dir ≡ false) × (m.size ≢ 0) × ((rest : String) × (m.name ≡ prefix ++ rest)))
      members
      λ m. (
        λ h. (ground arith, ground arith, (has_prefix_iff prefix m.name).0 (ground arith)),
        λ (d, s, r). rw (d, (has_prefix_iff prefix m.name).1 r) (ground arith),
      )

past :
    {m : Member} {rest : List Member}
    → (m.is_dir || str_eq m.name "") ≡ true
    → StartsWithManifest (m ∷ rest)
    → StartsWithManifest rest
past {m} e (here _ _ d n) =
    let named : str_eq m.name "" ≡ false = ap (λ s. str_eq s "") n in absurd (ground arith)
past e (later _ _ _ h) = h

at_head :
    {m : Member} {rest : List Member}
    → (m.is_dir || str_eq m.name "") ≡ false
    → StartsWithManifest (m ∷ rest)
    → m.name ≡ "manifest.json"
at_head e (here _ _ d n) = n
at_head e (later _ _ q h) = absurd (ground arith)

first_file_iff :
    (members : List Member) → (is_manifest (first_file members) ≡ true) ↔ StartsWithManifest members
unfolding first_file
first_file_iff [] = (λ h. absurd (ground arith), λ h. elim h [ ])
first_file_iff (m ∷ rest) = elim (Bool-cases (m.is_dir || str_eq m.name "")) [
  | inl e ↦ (
    λ h. later m rest e ((first_file_iff rest).0 (rw e at h)),
    λ h. rw e ((first_file_iff rest).1 (past e h)),
  )
  | inr e ↦ (
    λ h. here m rest (ground arith) (str_eq→eq m.name "manifest.json" (rw e at h)),
    λ h. rw e (eq→str_eq m.name "manifest.json" (at_head e h)),
  )
]

by_name-Distinct :
    (members : List Member) → Distinct (λ (m : Member). m.name) members → by_name members ≡ members
unfolding by_name
by_name-Distinct [] h = refl
by_name-Distinct (m ∷ rest) h =
    let alone =
      any-none (λ n. str_eq n.name m.name) rest
        (All-of (λ n. str_eq n.name m.name ≡ false) rest
          (λ n k.
            ne→str_eq n.name m.name (λ q. All-at (λ y. m.name ≢ y.name) rest h.0 k (sym q)))) in
    rw (by_name-Distinct rest h.1) (rw alone refl)

logical_payload_iff :
    (members : List Member) (e : SnapshotInstanceEntry)
    → (logical_payload members e ≡ true) ↔ (
        Holds members (base_of e ++ "/globals.sql")
        × HoldsBelow members (base_of e ++ "/databases/"))
logical_payload_iff members e =
    let globals = non_empty_iff members (base_of e ++ "/globals.sql") in
    let databases = any-HoldsBelow members (base_of e ++ "/databases/") in
    (
      λ h. (globals.0 (ground arith), databases.0 (ground arith)),
      λ (g, d). rw (globals.1 g) (databases.1 d),
    )

physical_payload_iff :
    (members : List Member) (e : SnapshotInstanceEntry)
    → (physical_payload members e ≡ true) ↔ (
        Holds members (base_of e ++ "/basebackup/base.tar.zst")
        ⊎ Holds members (base_of e ++ "/basebackup/base.tar"))
physical_payload_iff members e =
    let zst = non_empty_iff members (base_of e ++ "/basebackup/base.tar.zst") in
    let plain = non_empty_iff members (base_of e ++ "/basebackup/base.tar") in
    (
      λ h. elim (Bool-cases (non_empty members (base_of e ++ "/basebackup/base.tar.zst"))) [
        | inl z ↦ inl (zst.0 z)
        | inr z ↦ inr (plain.0 (ground arith))
      ],
      λ h. elim h [ inl z ↦ rw (zst.1 z) refl | inr q ↦ ground (arith, plain.1 q) ],
    )

and_left : (a b : Bool) → (a && b) ≡ true → a ≡ true
and_left a b h = ground arith

and_right : (a b : Bool) → (a && b) ≡ true → b ≡ true
and_right a b h = ground arith

payload_needed : {a b : Bool} → a ≡ true → (not a || b) ≡ true → b ≡ true
payload_needed e h = ground arith

payload_passes-format :
    (members : List Member) (e : SnapshotInstanceEntry)
    → payload_passes members e ≡ (
        if str_eq e.format snapshot_format_physical
        then physical_payload members e
        else logical_payload members e)
unfolding payload_passes entry_format
payload_passes-format members e = elim (Bool-cases (str_eq e.format snapshot_format_physical)) [
  | inl p ↦ rw p refl
  | inr p ↦ rw p refl
]

payload_passes_iff :
    (members : List Member) (e : SnapshotInstanceEntry)
    → (payload_passes members e ≡ true) ↔ HoldsData members e
payload_passes_iff members e =
    let named = eq_iff e.format snapshot_format_physical in
    rw (payload_passes-format members e)
      (elim (Bool-cases (str_eq e.format snapshot_format_physical)) [
        | inl t ↦ rw t (
          λ h. ((λ _. (physical_payload_iff members e).0 h), (λ n. absurd (n (named.0 t)))),
          λ h. (physical_payload_iff members e).1 (h.0 (named.0 t)),
        )
        | inr f ↦ rw f (
          λ h. (
            (λ q. absurd (ground (arith, named.1 q))),
            (λ _. (logical_payload_iff members e).0 h),
          ),
          λ h. (logical_payload_iff members e).1 (h.1 (λ q. ground (arith, named.1 q))),
        )
      ])

entry_passes_iff :
    (members : List Member) (e : SnapshotInstanceEntry)
    → (entry_passes members e ≡ true) ↔ HoldsEntry members e
unfolding entry_passes
entry_passes_iff members e =
    let config = non_empty_iff members (base_of e ++ "/instance.json") in
    let payload = payload_passes_iff members e in
    (
      λ h. (
        config.0 (and_left _ _ h),
        λ d.
            payload.0 (
              payload_needed d (and_right (non_empty members (base_of e ++ "/instance.json")) _ h)),
      ),
      λ (c, data_of). elim (Bool-cases e.has_data) [
        | inr d ↦ rw (config.1 c, d) refl
        | inl d ↦ rw (config.1 c, d) (payload.1 (data_of d))
      ],
    )

-- For an archive whose members have different names, the check passes exactly if the manifest is the
-- first file, the store is there and not empty, and every entry of the manifest has its
-- configuration and, if it claims data, the data that its format promises, none of them empty.
pub assert_snapshot_members_iff :
    (members : List Member) (entries : List SnapshotInstanceEntry)
    → Distinct (λ (m : Member). m.name) members
    → (assert_snapshot_members members entries ≡ true)
      ↔ (StartsWithManifest members × Holds members "oddk.db" × All (HoldsEntry members) entries)
unfolding assert_snapshot_members
assert_snapshot_members_iff members entries distinct =
    let manifest = first_file_iff members in
    let stored = non_empty_iff members "oddk.db" in
    let each =
      all_iff (entry_passes members) (HoldsEntry members) entries (entry_passes_iff members) in
    rw (by_name-Distinct members distinct) (
      λ h. (manifest.0 (ground arith), stored.0 (ground arith), each.0 (ground arith)),
      λ (m, s, a). rw (manifest.1 m, stored.1 s) (each.1 a),
    )
