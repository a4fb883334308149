-- ===== src/Parameters/Fits.antt =====
-- The estimate, and when the refusal is right.
use oddk.Base.{
  ℕ, ◌+◌, ◌*◌, ◌/◌, ◌%◌, ◌≤◌, ◌<◌, min, ◌≡◌, ◌↔◌, refl, sym, subst, ap, ◌∙◌, ◌⊎◌, inl, inr, Bool,
  true, false, Option, none, some, List, String, arith, Option-cases, some-injective,
}
use oddk.Parameters.Readings.{
  size_or, count_or, wal_or, total, total_of, wal_of, demand, count-read, size-read, wal-read,
  count-inexact, size-inexact, wal-inexact,
}
use oddk.Parameters.{
  ResolvedParameter, word, half, times, plus, read_wal_buffers, max_parsed, by_name,
  default_shared_buffers_bytes, default_max_connections, default_max_locks_per_transaction,
  default_max_prepared_transactions, default_wal_buffers_cap_bytes, lock_object_bytes,
  estimate_shared_memory_bytes, validate_for_container, estimate_of, derived_wal,
  read_shared_buffers,
}

-- The derived size of the WAL buffers does not wrap.
derived-min :
    (b : ℕ) → b < half → derived_wal (b, true) ≡ min (b / 32) default_wal_buffers_cap_bytes
derived-min b h = ground arith

table-fits :
    (x : ℕ)
    → x * lock_object_bytes < word
    → times (x % word) lock_object_bytes ≡ x * lock_object_bytes
table-fits x h = omega arith

-- Where the sum fits into an int64, nothing wraps.
estimate_of-total :
    (b c l p w : ℕ)
    → c < half
    → p < half
    → total b c l p w < half
    → estimate_of (b % word, true) (c, true) (l, true) (p, true) (w % word, true)
      ≡ (total b c l p w, true)
estimate_of-total b c l p w hc hp h =
    let sum : plus c p ≡ c + p = omega arith in
    let table : times (times l (plus c p)) lock_object_bytes ≡ l * (c + p) * lock_object_bytes =
      rw sum (table-fits (l * (c + p)) (omega arith)) in
    ap (λ (k : ℕ). (k, true)) (rw table (omega arith))

total_of-some :
    (b c l p : Option ℕ) (wal : Option String) {d : ℕ}
    → total_of b c l p (wal_of b wal) ≡ some d
    → (x : ℕ) × (y : ℕ) × (z : ℕ) × (u : ℕ) × (v : ℕ) × (b ≡ some x)
      × (c ≡ some y)
      × (l ≡ some z)
      × (p ≡ some u)
      × (wal_or (min (x / 32) default_wal_buffers_cap_bytes) wal ≡ some v)
      × (total x y z u v ≡ d)
total_of-some (some x) (some y) (some z) (some u) wal {d} e =
    elim (Option-cases (wal_or (min (x / 32) default_wal_buffers_cap_bytes) wal)) [
      | inl n ↦ absurd (ground arith)
      | inr (v, n) ↦ (x, y, z, u, v, refl, refl, refl, refl, n, some-injective (rw n at e))
    ]
total_of-some none c l p wal e = absurd (ground arith)
total_of-some (some x) none l p wal e = absurd (ground arith)
total_of-some (some x) (some y) none p wal e = absurd (ground arith)
total_of-some (some x) (some y) (some z) none wal e = absurd (ground arith)

total_of-none :
    (b c l p : Option ℕ) (wal : Option String)
    → total_of b c l p (wal_of b wal) ≡ none
    → (b ≡ none) ⊎ (c ≡ none) ⊎ (l ≡ none) ⊎ (p ≡ none) ⊎ ((m : ℕ) × (wal_or m wal ≡ none))
total_of-none none c l p wal e = inl refl
total_of-none (some x) none l p wal e = inr (inl refl)
total_of-none (some x) (some y) none p wal e = inr (inr (inl refl))
total_of-none (some x) (some y) (some z) none wal e = inr (inr (inr (inl refl)))
total_of-none (some x) (some y) (some z) (some u) wal e =
    elim (Option-cases (wal_or (min (x / 32) default_wal_buffers_cap_bytes) wal)) [
      | inl n ↦ inr (inr (inr (inr (_, n))))
      | inr (v, n) ↦ absurd (ground arith)
    ]

estimate_of-cong :
    {b b' c c' l l' p p' w w' : ℕ × Bool}
    → b ≡ b'
    → c ≡ c'
    → l ≡ l'
    → p ≡ p'
    → w ≡ w'
    → estimate_of b c l p w ≡ estimate_of b' c' l' p' w'
estimate_of-cong eb ec el ep ew = rw (eb, ec, el, ep, ew) refl

estimate_of-inexact :
    (b c l p w : ℕ × Bool)
    → (b.1 ≡ false) ⊎ (c.1 ≡ false) ⊎ (l.1 ≡ false) ⊎ (p.1 ≡ false) ⊎ (w.1 ≡ false)
    → (estimate_of b c l p w).1 ≡ false
estimate_of-inexact b c l p w h = ground arith

module _ (resolved : List ResolvedParameter) where
  estimate-total :
      (b c l p w : ℕ)
      → total b c l p w < half
      → size_or default_shared_buffers_bytes (by_name "shared_buffers" resolved) ≡ some b
      → count_or default_max_connections (by_name "max_connections" resolved) ≡ some c
      → count_or default_max_locks_per_transaction (by_name "max_locks_per_transaction" resolved)
        ≡ some l
      → count_or default_max_prepared_transactions (by_name "max_prepared_transactions" resolved)
        ≡ some p
      → wal_or (min (b / 32) default_wal_buffers_cap_bytes) (by_name "wal_buffers" resolved)
        ≡ some w
      → estimate_shared_memory_bytes resolved ≡ (total b c l p w, true)
  unfolding estimate_shared_memory_bytes
  estimate-total b c l p w h eb ec el ep ew =
      let wals = by_name "wal_buffers" resolved in
      let buffers =
        size-read default_shared_buffers_bytes (by_name "shared_buffers" resolved) (omega arith)
          eb in
      let conn =
        count-read default_max_connections (by_name "max_connections" resolved) (omega arith) ec in
      let locks =
        count-read default_max_locks_per_transaction (by_name "max_locks_per_transaction" resolved)
          (omega arith) el in
      let prepared =
        count-read default_max_prepared_transactions (by_name "max_prepared_transactions" resolved)
          (omega arith) ep in
      let fits : b < half = omega (arith, h) in
      let same : b % word ≡ b = omega (arith, fits) in
      let derived : derived_wal (read_shared_buffers resolved)
          ≡ min (b / 32) default_wal_buffers_cap_bytes =
        ap derived_wal (buffers ∙ ap (λ (k : ℕ). (k, true)) same) ∙ derived-min b fits in
      let wal : read_wal_buffers (derived_wal (read_shared_buffers resolved)) wals
          ≡ (w % word, true) =
        ap (λ (k : ℕ). read_wal_buffers k wals) derived
        ∙ wal-read (min (b / 32) default_wal_buffers_cap_bytes) wals (omega arith) ew in
      estimate_of-cong buffers conn.0 locks.0 prepared.0 wal
      ∙ estimate_of-total b c l p w conn.1 prepared.1 h

  estimate-demand :
      (d : ℕ)
      → demand resolved ≡ some d
      → d < half
      → estimate_shared_memory_bytes resolved ≡ (d, true)
  estimate-demand d e h =
      let (b, c, l, p, w, eb, ec, el, ep, ew, sum) =
        total_of-some _ _ _ _ (by_name "wal_buffers" resolved) e in
      estimate-total b c l p w (subst (λ (k : ℕ). k < half) (sym sum) h) eb ec el ep ew
      ∙ ap (λ (k : ℕ). (k, true)) sum

  estimate-inexact : demand resolved ≡ none → (estimate_shared_memory_bytes resolved).1 ≡ false
  unfolding estimate_shared_memory_bytes
  estimate-inexact e =
      let wals = by_name "wal_buffers" resolved in
      estimate_of-inexact (read_shared_buffers resolved)
        (max_parsed resolved "max_connections" default_max_connections)
        (max_parsed resolved "max_locks_per_transaction" default_max_locks_per_transaction)
        (max_parsed resolved "max_prepared_transactions" default_max_prepared_transactions)
        (read_wal_buffers (derived_wal (read_shared_buffers resolved)) wals)
        (elim (total_of-none _ _ _ _ wals e) [
          | inl n ↦
              inl (size-inexact default_shared_buffers_bytes (by_name "shared_buffers" resolved) n)
          | inr (inl n) ↦
              inr
                (inl (count-inexact default_max_connections (by_name "max_connections" resolved) n))
          | inr (inr (inl n)) ↦ inr (
              inr (
                inl (
                  count-inexact default_max_locks_per_transaction
                    (by_name "max_locks_per_transaction" resolved) n)))
          | inr (inr (inr (inl n))) ↦ inr (
              inr (
                inr (
                  inl (
                    count-inexact default_max_prepared_transactions
                      (by_name "max_prepared_transactions" resolved) n))))
          | inr (inr (inr (inr (m, n)))) ↦
              inr (
                inr (inr (inr (wal-inexact m (derived_wal (read_shared_buffers resolved)) wals n))))
        ])

  -- Suppose the RAM in bytes fits into an int64. A group with a value that does not parse is let
  -- through. A group whose values parse and ask for d bytes in all, with d below 2 ^ 63, is let
  -- through exactly if d is at most the RAM.
  pub validate_for_container_iff :
      (ram_mb : ℕ)
      → ram_mb * 1048576 < half
      → (demand resolved ≡ none → validate_for_container resolved ram_mb ≡ true)
        × ((d : ℕ)
            → demand resolved ≡ some d
            → d < half
            → (validate_for_container resolved ram_mb ≡ true) ↔ (d ≤ ram_mb * 1048576))
  unfolding validate_for_container
  validate_for_container_iff ram_mb small =
      (λ e. rw (estimate-inexact e) refl, λ d e h. rw (estimate-demand d e h) (ground arith))
