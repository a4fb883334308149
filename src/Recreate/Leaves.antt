-- ===== src/Recreate/Leaves.antt =====
-- Results about the row of one instance, and the rule for a statement about it.
use oddk.Base.{◌≡◌, sym, subst, Bool, false, Option, String, List, Result, ok}
use oddk.Instances.{Instance, InstanceError, get, update_row}
use oddk.Instances.Rows.{IsKeyed}
use oddk.Instances.Sets.{Sets, Sets-refl, Sets-self, Sets-trans, update_row-Sets}
use oddk.Recreate.{Outcome, ChangeError}

-- A result about one row: only that row of the table differs, and `P` is what holds of the error and
-- the row.
abbrev pub Leaves :
    (Option ChangeError → Instance → Type 0) → String → List Instance → Outcome → Type 0
Leaves P name rows out = (r : Instance) × Sets name r rows out.1 × P out.0 r

pub stays-Leaves :
    (P : Option ChangeError → Instance → Type 0) (name : String) (x : Option ChangeError)
    (r : Instance) (rows : List Instance)
    → IsKeyed rows
    → get false name rows ≡ ok r
    → P x r
    → Leaves P name rows (x, rows)
stays-Leaves P name x r rows keyed there p = (r, Sets-refl name r rows keyed there, p)

-- The rule for an accepted statement, and whatever follows on it.
pub write-Leaves :
    (P : Option ChangeError → Instance → Type 0) (name : String) (refused : Bool)
    (f : Instance → Instance) (keeps : (x : Instance) → (f x).name ≡ x.name) (r : Instance)
    (rows : List Instance) (rest : Result InstanceError (List Instance) → Outcome)
    → refused ≡ false
    → IsKeyed rows
    → get false name rows ≡ ok r
    → ((after : List Instance)
        → IsKeyed after
        → get false name after ≡ ok (f r)
        → Leaves P name after (rest (ok after)))
    → Leaves P name rows (rest (update_row refused name f rows))
write-Leaves P name refused f keeps r rows rest accepted keyed there go =
    let (after, e, sets) = update_row-Sets name f keeps r rows keyed there in
    let (x, s, p) = go after sets.0 (Sets-self name (f r) rows after sets) in
    subst (λ b. Leaves P name rows (rest (update_row b name f rows))) (sym accepted)
      (subst (λ out. Leaves P name rows (rest out)) (sym e)
        (x, Sets-trans name (f r) x rows after (rest (ok after)).1 sets s, p))

pub Leaves-map :
    (P Q : Option ChangeError → Instance → Type 0) (name : String) (rows : List Instance)
    (out : Outcome)
    → ((x : Option ChangeError) (r : Instance) → P x r → Q x r)
    → Leaves P name rows out
    → Leaves Q name rows out
Leaves-map P Q name rows out h (r, s, p) = (r, s, h out.0 r p)
