-- ===== src/Bucket/Keys.antt =====
-- Two locations that lead to different objects do not disturb one another.
use oddk.Base.{◌≡◌, ◌≢◌, refl, some, String, ne→str_eq, arith, Option-cases, inl, inr}
use oddk.Bucket.{Objects, Remote, our_key, remote_archive_present, delete_file}

-- No object is named by both.
abbrev pub OtherKey : Remote → String → String → Type 0
OtherKey remote a b = (k : String) → our_key remote a ≡ some k → our_key remote b ≢ some k

pub OtherKey-sym : (remote : Remote) (a b : String) → OtherKey remote a b → OtherKey remote b a
OtherKey-sym remote a b h k eb ea = h k ea eb

-- The answer about a location reads only its own key.
pub remote_archive_present-cong :
    (remote : Remote) (o p : Objects) (location : String)
    → ((k : String) → our_key remote location ≡ some k → o k ≡ p k)
    → remote_archive_present remote o location ≡ remote_archive_present remote p location
unfolding remote_archive_present
remote_archive_present-cong remote o p location h = elim (Option-cases (our_key remote location)) [
  | inl e ↦ rw e refl
  | inr (k, e) ↦ rw (e, h k e) refl
]

pub delete_file-other :
    (remote : Remote) (key k : String) (o : Objects)
    → key ≢ k
    → (delete_file remote key o).1 k ≡ o k
unfolding delete_file
delete_file-other remote key k o h = ground (arith, ne→str_eq key k h)
