-- ===== src/Snapshots/Plan.antt =====
-- internal/store/snapshot/types.go: the deployment-wide plan and the hours at which it fires.
use oddk.Base.{
  ℕ, ◌+◌, ◌-◌, ◌%◌, ◌<◌, ◌≡◌, ◌↔◌, Bool, true, false, Option, none, some, List, [], ◌∷◌, leb, ◌==◌,
  arith, Memᴰ, All, All-at, ==→eq, eq→==, if◌then◌else◌,
}

-- `paused_at` is `none` for a plan that runs; the columns that the scheduler does not read are left
-- out.
pub record Plan : Type 0 where
  pub utc_hour : ℕ
  pub interval_hours : ℕ
  pub paused_at : Option ℕ

unfoldable pub is_paused : Plan → Bool
is_paused p = elim p.paused_at [ none ↦ false | some t ↦ true ]

abbrev effective_interval : ℕ → ℕ
effective_interval n = if n == 0 then 24 else n

-- ((hour - utc) % n + n) % n, where Go's % keeps the sign of the dividend.
abbrev delta : ℕ → ℕ → ℕ → ℕ
delta hour utc n = if leb utc hour then ((hour - utc) % n + n) % n else (n - (utc - hour) % n) % n

unfoldable pub runs_at_hour : Plan → ℕ → Bool
runs_at_hour p hour = delta hour p.utc_hour (effective_interval p.interval_hours) == 0

-- The CHECKs of migration 017.
abbrev pub intervals : List ℕ
intervals = 1 ∷ 2 ∷ 3 ∷ 4 ∷ 6 ∷ 8 ∷ 12 ∷ 24 ∷ []

pub record IsScheduled (p : Plan) : Type 0 where
  pub hour : p.utc_hour < 24
  pub interval : Memᴰ p.interval_hours intervals

-- For one interval: the plan fires at the hours of its anchor's residue, and an hour after which
-- it fires again is one interval later, also across midnight.
abbrev Anchored : ℕ → Type 0
Anchored n =
    (utc hour : ℕ)
    → utc < 24
    → hour < 24
    → (delta hour utc (effective_interval n) ≡ 0 → hour % n ≡ utc % n)
      × (hour % n ≡ utc % n → delta hour utc (effective_interval n) ≡ 0)
      × (hour % n ≡ utc % n → ((hour + n) % 24) % n ≡ utc % n)

every_1 : Anchored 1
every_1 utc hour u h = ground arith

every_2 : Anchored 2
every_2 utc hour u h = ground arith

every_3 : Anchored 3
every_3 utc hour u h = ground arith

every_4 : Anchored 4
every_4 utc hour u h = ground arith

every_6 : Anchored 6
every_6 utc hour u h = ground arith

every_8 : Anchored 8
every_8 utc hour u h = ground arith

every_12 : Anchored 12
every_12 utc hour u h = ground arith

every_24 : Anchored 24
every_24 utc hour u h = ground arith

intervals-Anchored : All Anchored intervals
intervals-Anchored =
    (every_1, (every_2, (every_3, (every_4, (every_6, (every_8, (every_12, (every_24, tt))))))))

-- A plan that passes the CHECKs of its table fires at the hours of the day which leave the same
-- remainder by its interval as its anchor hour, and at no others. One interval after such an hour,
-- also past midnight, it fires again.
pub runs_at_hour-residue :
    (p : Plan)
    → IsScheduled p
    → (hour : ℕ) → hour < 24
    → ((runs_at_hour p hour ≡ true) ↔ (hour % p.interval_hours ≡ p.utc_hour % p.interval_hours))
      × (runs_at_hour p hour ≡ true → runs_at_hour p ((hour + p.interval_hours) % 24) ≡ true)
unfolding runs_at_hour
runs_at_hour-residue p ok hour h =
    let n = p.interval_hours in
    let at = λ (t : ℕ) (t< : t < 24).
      All-at Anchored intervals intervals-Anchored ok.interval p.utc_hour t ok.hour t< in
    let now = at hour h in
    let later = at ((hour + n) % 24) (omega arith) in
    let fires = λ (t : ℕ) (r : delta t p.utc_hour (effective_interval n) ≡ 0). eq→== r in
    let is_zero = λ (t : ℕ) (r : runs_at_hour p t ≡ true).
      ==→eq (delta t p.utc_hour (effective_interval n)) 0 r in
    (
      (λ r. now.0 (is_zero hour r), λ r. fires hour (now.1 r)),
      λ r. fires ((hour + n) % 24) (later.1 (now.2 (now.0 (is_zero hour r)))),
    )
