-- ===== src/Recreate/OtherImage.antt =====
-- What another image leaves in the row of the instance.
use oddk.Base.{◌≡◌, refl, ap, Option, none, some, String, List, false, ok}
use oddk.Instances.{Instance, get, update_image}
use oddk.Instances.Rows.{IsKeyed}
use oddk.Instances.Status.{switching}
use oddk.Recreate.Docker.{Engine, Parameter, Statement, spec_from_instance, record_image}
use oddk.Recreate.{
  no_group, no_password, on_update, finished, recreate_instance_on_image, recreate_with,
}
use oddk.Recreate.Leaves.{Leaves, stays-Leaves, write-Leaves}
use oddk.Recreate.Committed.{Settled, AreSpecs, put_on-Leaves}
use oddk.Recreate.Finished.{finished-Settled}

-- The row with another image.
abbrev pub with_image : Instance → String → String → Instance
with_image inst i version = record inst { image = i; version = version }

module _ (e : Engine) (inst : Instance) (new_image new_version : String) where
  recreate_with-Leaves :
      (password : Option String) (parameters : Option (List Parameter)) (rows : List Instance)
      → ((s : Statement) → e.refuses s ≡ false)
      → e.decrypted inst.password ≡ password
      → e.group inst.parameter_group ≡ parameters
      → IsKeyed rows
      → get false inst.name rows ≡ ok inst
      → Leaves
          (Settled e inst (with_image inst new_image new_version) switching)
          inst.name
          rows
          (recreate_with e inst new_image new_version password parameters rows)
  unfolding update_image
  recreate_with-Leaves none parameters rows accepted d g keyed there =
      stays-Leaves (Settled e inst (with_image inst new_image new_version) switching) inst.name
        (some no_password) inst rows keyed there refl
  recreate_with-Leaves (some pw) none rows accepted d g keyed there =
      stays-Leaves (Settled e inst (with_image inst new_image new_version) switching) inst.name
        (some no_group) inst rows keyed there refl
  recreate_with-Leaves (some pw) (some ps) rows accepted d g keyed there =
      let target = with_image inst new_image new_version in
      let prev = spec_from_instance inst pw ps in
      let next = spec_from_instance target pw ps in
      let specs : AreSpecs e inst target next prev = (pw, ps, ps, d, g, g, refl, refl) in
      put_on-Leaves e accepted inst target switching next prev _ specs refl rows keyed there
        λ x after k s same ready.
          write-Leaves (Settled e inst target switching) inst.name (e.refuses record_image)
            (λ q. record q { image = new_image; version = new_version; updated_at = e.now })
            (λ q. refl) x after (λ out. on_update after out (finished e inst.name))
            (accepted record_image) k s
            λ last k' s'.
              finished-Settled e accepted inst target switching next prev _ specs refl
                (ap (λ (q : Instance). with_image q new_image new_version) same) ready last k' s'

  -- Suppose that no statement is refused, and that the row is in a table that is keyed by name.
  -- Only that row differs afterwards. Without an error it has the new image and version, it is
  -- `running`, and its container was made from what the row says and answers. After a rollback it
  -- has the old image, it is `running`, and its container was made from the old row with some
  -- image and answers. Where the rollback fails too, it has the old image and is `error`. Where
  -- the change is refused as invalid, it has the old image and the old container, and its status
  -- is the old one, or still `switching` if that was `error`. After any other error it is the old
  -- row.
  pub recreate_instance_on_image-settles :
      (rows : List Instance)
      → ((s : Statement) → e.refuses s ≡ false)
      → IsKeyed rows
      → get false inst.name rows ≡ ok inst
      → Leaves
          (Settled e inst (with_image inst new_image new_version) switching)
          inst.name
          rows
          (recreate_instance_on_image e inst new_image new_version rows)
  unfolding recreate_instance_on_image
  recreate_instance_on_image-settles rows accepted keyed there =
      recreate_with-Leaves _ _ rows accepted refl refl keyed there
