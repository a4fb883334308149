-- ===== src/Reconcile/Tests.antt =====
-- A pass over an instance that stopped and one that was upgrading.
use oddk.Base.{◌≡◌, refl, false, List, [], ◌∷◌, String, arith, map, eq_iff}
use oddk.Instances.{Instance}
use oddk.Instances.Status.{
  running, stopped, error, upgrading, broken_auth, restoring, InstanceStatus,
}
use oddk.Instances.Rows.{IsKeyed}
use oddk.Reconcile.{Host, state, down, up, decide_reconcile, reconcile_instances}
use oddk.Reconcile.Decision.{after, settled, has_container, decide_reconcile-settled}
use oddk.Reconcile.Pass.{settle_row, reconcile_instances-settles}

abbrev row : String → InstanceStatus → Instance
row name status = record {
  name = name;
  port = 5432;
  version = "17";
  status = status;
  container_id = "c";
  password = "";
  cpu_cores = 2;
  ram_mb = 1024;
  parameter_group = "default:2025-08-27";
  image = "postgres:17";
  created_at = 5;
  updated_at = 5;
}

abbrev host : Host
host = record {
  inspect = λ c. state (record { paused = false; restarting = false; running = false });
  update_refused = λ n. false;
  now = 9;
}

abbrev table : List Instance
table = row "app" running ∷ row "web" upgrading ∷ []

table-IsKeyed : IsKeyed table
table-IsKeyed = ((ground (arith, eq_iff "app" "web"), tt), (tt, tt))

-- The stopped one is recorded, the interrupted one becomes an error.
pass_statuses : map (λ r. r.status) (map (settle_row host) table) ≡ stopped ∷ error ∷ []
unfolding settle_row oddk.Reconcile.observed oddk.Instances.Status.same_status
pass_statuses = refl

decide_reconcile-settled_example :
    after broken_auth (decide_reconcile broken_auth "c" up).0
    ≡ settled broken_auth (has_container "c") up
decide_reconcile-settled_example = decide_reconcile-settled broken_auth "c" up

reconcile_instances-settles_example :
    reconcile_instances false host table ≡ map (settle_row host) table
reconcile_instances-settles_example = reconcile_instances-settles host table table-IsKeyed
