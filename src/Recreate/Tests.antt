-- ===== src/Recreate/Tests.antt =====
-- A reconfiguration that succeeds, one that is rolled back, and the retry of a failed one.
use oddk.Base.{
  ◌≡◌, refl, Bool, ◌&&◌, true, false, none, some, List, [], ◌∷◌, String, str_eq, eq_iff, arith, ok,
}
use oddk.Instances.{Instance, get, update_status, update_container_id, update_resources}
use oddk.Instances.Rows.{IsKeyed}
use oddk.Instances.Status.{InstanceStatus, running, error, reconfiguring, switching, same_status}
use oddk.Parameters.{validate_for_container, estimate_shared_memory_bytes, by_name}
use oddk.Recreate.Docker.{
  Engine, Parameter, Attempt, forward, rollback, image, recreate_container, recreate_start_ready,
  pin_image,
}
use oddk.Recreate.{invalid, rolled_back, apply_cluster_change, recreate_instance_on_image}
use oddk.Recreate.Leaves.{Leaves}
use oddk.Recreate.Committed.{Settled}
use oddk.Recreate.Reconfigure.{Params, merged, resolve_target, reconfigure}
use oddk.Recreate.Shaped.{shaped}
use oddk.Recreate.Settled.{reconfigure-settles}
use oddk.Recreate.OtherImage.{with_image, recreate_instance_on_image-settles}

abbrev parameter : Parameter
parameter = record {
  group_name = "default";
  name = "max_connections";
  parameter_type = "postgres_cli_arg";
  value_type = "constant";
  value = "50";
  created_at = "";
}

abbrev new_id : Attempt → String
new_id forward = "new"
new_id rollback = "back"

-- The new container does not become ready if `broken`.
abbrev engine : Bool → Bool → Engine
engine present broken = record {
  now = 100;
  refuses = λ s. false;
  group = λ g. some (parameter ∷ []);
  decrypted = λ p. some "secret";
  system_has = λ c m. true;
  host_port_answers = λ p. false;
  image_of = λ ref. image "sha256:17";
  has_previous_image = λ i. true;
  has_image = λ a i. present;
  resolved = λ ps c m. some [];
  has_volume = λ a v. true;
  is_running = λ a c. true;
  stop_fails = λ a c. false;
  remove_fails = λ a c. false;
  created = λ a spec. some (new_id a);
  start_fails = λ c. false;
  ready_fails = λ c. str_eq c "new" && broken;
}

abbrev row : InstanceStatus → String → Instance
row status name = record {
  name = name;
  port = 5432;
  version = "17";
  status = status;
  container_id = "old";
  password = "sealed";
  cpu_cores = 2;
  ram_mb = 1024;
  parameter_group = "default";
  image = "postgres:17";
  created_at = 5;
  updated_at = 5;
}

abbrev two : InstanceStatus → List Instance
two status = row status "app" ∷ row status "web" ∷ []

two-IsKeyed : (status : InstanceStatus) → IsKeyed (two status)
two-IsKeyed status = ((ground (arith, eq_iff "app" "web"), tt), (tt, tt))

abbrev more_ram : Params
more_ram = record {
  name = "app";
  parameter_group = "";
  cpu_cores = none;
  ram_mb = some 2048;
  port = none;
}

abbrev same_group : Params
same_group = record {
  name = "app";
  parameter_group = "default";
  cpu_cores = none;
  ram_mb = none;
  port = none;
}

app-row : get false "app" (two running) ≡ ok (row running "app")
unfolding get
app-row = refl

reconfigured : reconfigure (engine true false) more_ram (two running) ≡ (
  none,
  record (row running "app") { ram_mb = 2048; container_id = "new"; updated_at = 100 }
      ∷ row running "web"
      ∷ [],
)
unfolding validate_for_container estimate_shared_memory_bytes by_name reconfigure get update_status
    update_container_id update_resources apply_cluster_change resolve_target recreate_start_ready
    recreate_container pin_image same_status
reconfigured = refl

rolled_back_row : reconfigure (engine true true) more_ram (two running) ≡ (
  some rolled_back,
  record (row running "app") { container_id = "back"; updated_at = 100 } ∷ row running "web" ∷ [],
)
unfolding validate_for_container estimate_shared_memory_bytes by_name reconfigure get update_status
    update_container_id update_resources apply_cluster_change resolve_target recreate_start_ready
    recreate_container pin_image same_status
rolled_back_row = refl

-- The retry on an instance in `error`, while the image is missing, leaves `reconfiguring`; the next retry is
-- refused, also with the image there.
abbrev after_refusal : List Instance
after_refusal =
    record (row error "app") { status = reconfiguring; updated_at = 100 } ∷ row error "web" ∷ []

refused_retry :
    (reconfigure (engine false false) same_group (two error) ≡ (some invalid, after_refusal))
    × (reconfigure (engine true false) same_group after_refusal ≡ (some invalid, after_refusal))
unfolding reconfigure get update_status update_container_id update_resources apply_cluster_change
    resolve_target recreate_start_ready recreate_container pin_image same_status
refused_retry = (refl, refl)

reconfigure-settles_example :
    Leaves
      (Settled
        (engine true true)
        (row running "app")
        (shaped (row running "app") (merged more_ram (row running "app")))
        reconfiguring)
      "app"
      (two running)
      (reconfigure (engine true true) more_ram (two running))
reconfigure-settles_example =
    reconfigure-settles (engine true true) more_ram (row running "app") (two running) (λ s. refl)
      (two-IsKeyed running) app-row

recreate_instance_on_image-settles_example :
    Leaves
      (Settled
        (engine true true)
        (row running "app")
        (with_image (row running "app") "postgres:17.6" "17.6")
        switching)
      "app"
      (two running)
      (recreate_instance_on_image
        (engine true true)
        (row running "app")
        "postgres:17.6"
        "17.6"
        (two running))
recreate_instance_on_image-settles_example =
    recreate_instance_on_image-settles (engine true true) (row running "app") "postgres:17.6" "17.6"
      (two running) (λ s. refl) (two-IsKeyed running) app-row
