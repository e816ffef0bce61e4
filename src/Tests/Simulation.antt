-- ===== src/Tests/Simulation.antt =====
-- A small world to run the model in: one instance, its secrets, and a server that remembers the
-- statements it has executed.
use k8s_postgresql_operator.Prelude.{
  ℕ, zero, suc, pos, ◌<◌, String, ◌<>◌, ◌≡◌, refl, Bool, true, false, Option, none, some, List, [],
  ◌∷◌, ◌==◌, arith, eq_refl, if◌then◌else◌,
}
use k8s_postgresql_operator.Errors.{plain}
use k8s_postgresql_operator.Api.{
  ObjectMeta, Condition, ExternalPostgresqlInstance, Postgresql, SyncStatus, User, Database,
  table_type, database_type, GrantItem, DefaultPrivilegeItem, Grant, RoleGroup, Schema,
}
use k8s_postgresql_operator.World.{Env, World, ok, err, text, Data}
use k8s_postgresql_operator.Tests.Machine.{Memory, lookup, machine, libraries}
use k8s_postgresql_operator.Vault.Laws.{IsKeyValueStore}
use k8s_postgresql_operator.Retry.Laws.{IsRandomSource}
use k8s_postgresql_operator.Postgres.{Server}
use k8s_postgresql_operator.Postgres.Databases.{database_exists_query}
use k8s_postgresql_operator.Postgres.Databases.Statements.{IsDatabaseCatalog}
use k8s_postgresql_operator.Controller.{Reconciler}
use k8s_postgresql_operator.Controller.Reports.{IsConditionStore}
use k8s_postgresql_operator.Webhook.{Validator}

abbrev create_orders : String
create_orders = "CREATE DATABASE orders OWNER app"

abbrev drop_orders : String
drop_orders = "DROP DATABASE orders"

-- Whether the database `orders` exists, by the latest statement on it.
abbrev has_orders : List String → Bool
has_orders [] = false
has_orders (q ∷ log) =
    let before = has_orders log in
    if q == create_orders then true else if q == drop_orders then false else before

abbrev meta_of : String → ObjectMeta
meta_of name = record {
  name = name;
  namespace = "default";
  generation = 1;
  deletion_timestamp = none;
  finalizers = [];
}

abbrev pub external : ExternalPostgresqlInstance
external = record { postgresql_id = "id1"; address = "db.example"; port = 0; ssl_mode = "" }

abbrev pub pg_instance : Postgresql
pg_instance = record {
  meta = meta_of "pg";
  external_instance = some external;
  connected = true;
  connection_address = "";
  last_connection_attempt = none;
  conditions = [];
}

abbrev pub fresh : SyncStatus
fresh = record { created = false; last_sync_attempt = none; conditions = [] }

abbrev pub app : User
app = record {
  meta = meta_of "app";
  spec = record { username = "app"; update_password = false; postgresql_id = "id1" };
  status = fresh;
  last_applied_password_hash = "";
}

abbrev pub orders : Database
orders = record {
  meta = meta_of "orders";
  spec = record {
    database = "orders";
    owner = "app";
    schema = "";
    postgresql_id = "id1";
    delete_from_crd = true;
    db_template = "";
  };
  status = fresh;
}

abbrev pub on_database : GrantItem
on_database = record {
  type = database_type;
  schema = "";
  table = "";
  sequence = "";
  function = "";
  privileges = "CONNECT" ∷ [];
}

abbrev pub on_table : GrantItem
on_table = record {
  type = table_type;
  schema = "public";
  table = "items";
  sequence = "";
  function = "";
  privileges = "SELECT" ∷ "INSERT" ∷ [];
}

abbrev pub on_new_tables : DefaultPrivilegeItem
on_new_tables = record { object_type = "tables"; schema = "public"; privileges = "SELECT" ∷ [] }

abbrev pub app_grant : Grant
app_grant = record {
  meta = meta_of "app-grant";
  spec = record {
    role = "app";
    database = "orders";
    postgresql_id = "id1";
    grants = on_table ∷ on_database ∷ [];
    default_privileges = on_new_tables ∷ [];
  };
  status = fresh;
}

abbrev pub readers : RoleGroup
readers = record {
  meta = meta_of "readers";
  spec = record { group_role = "readers"; member_roles = "app" ∷ []; postgresql_id = "id1" };
  status = fresh;
}

abbrev pub audit : Schema
audit = record {
  meta = meta_of "audit";
  spec = record { schema = "audit"; owner = "app"; postgresql_id = "id1" };
  status = fresh;
}

abbrev find_kind : List Condition → String → Option Condition
find_kind [] kind = none
find_kind (c ∷ cs) kind = if c.kind == kind then some c else find_kind cs kind

abbrev pub sim : Env
sim = record {
  State = Memory;
  get_secret = λ p s. (ok (lookup p s.secrets), s);
  put_secret = λ p d s. (ok tt, record s { secrets = (p, d) ∷ s.secrets });
  check_health = λ s. (ok true, s);
  open_db = λ conn s. (ok tt, s);
  ping_db = λ conn s. (ok tt, s);
  query_exists = λ conn query arg s.
      (ok (if query == database_exists_query then has_orders s.statements else true), s);
  query_number = λ conn query s. (ok 1, s);
  query_rows = λ conn query arg s. (ok (record { items = []; failure = none }), s);
  exec = λ conn query args s. (ok tt, record s { statements = query ∷ s.statements });
  quote_identifier = λ s. s;
  quote_literal = λ s. s;
  get_postgresql = λ namespace name s. (ok (some pg_instance), s);
  get_user = λ namespace name s. (ok (some app), s);
  get_database = λ namespace name s. (ok (some orders), s);
  get_grant = λ namespace name s. (ok (some app_grant), s);
  get_rolegroup = λ namespace name s. (ok (some readers), s);
  get_schema = λ namespace name s. (ok (some audit), s);
  list_postgresqls = λ s. (ok (pg_instance ∷ []), s);
  list_users = λ s. (ok [], s);
  list_databases = λ s. (ok (orders ∷ []), s);
  list_grants = λ s. (ok [], s);
  list_rolegroups = λ s. (ok [], s);
  list_schemas = λ s. (ok [], s);
  update = λ object s. (ok tt, s);
  update_status = λ object s. (ok tt, s);
  set_status_condition = λ conditions c. c ∷ conditions;
  find_status_condition = find_kind;
  wait_or_done = λ d s. (none, s);
  now_time = λ s. (7, s);
  random_int = λ n s. elim n [ zero ↦ (err (plain "no range"), s) | suc m ↦ (ok 0, s) ];
  sha256_hex = λ s. "hash of " <> s;
  to_duration = λ n. pos n;
  platform = machine;
  runtime = libraries;
}

abbrev pub admin_secret : Data
admin_secret =
    ("login", text "root") ∷ ("password", text "old") ∷ ("new_password", text "next") ∷ []

abbrev pub start : World sim
start = record {
  state = record {
    secrets = ("kv/id1/instance_admin", admin_secret) ∷ [];
    statements = [];
    files = [];
  };
  trace = [];
}

-- The world with no secret of the instance, and a default one.
abbrev pub unregistered : World sim
unregistered = record {
  state = record {
    secrets = ("kv/default", ("login", text "postgres") ∷ ("password", text "first") ∷ []) ∷ [];
    statements = [];
    files = [];
  };
  trace = [];
}

abbrev pub server : Server
server = record {
  host = "db.example";
  port = 5432;
  admin_user = "root";
  admin_password = "old";
  ssl_mode = "require";
}

abbrev pub reconciler : Reconciler
reconciler = record {
  vault_client = some "kv";
  connection_retries = 3;
  connection_timeout = 10;
  vault_retries = 3;
  vault_retry_delay = 10;
}

-- A validator with Vault, which tests the connection.
abbrev pub validator : Validator
validator = record {
  vault_client = some "kv";
  connection_retries = 3;
  connection_timeout = 10;
  vault_retries = 3;
  vault_retry_delay = 10;
}

pub sim-IsKeyValueStore : IsKeyValueStore sim
sim-IsKeyValueStore = record { get-put = λ s p d h. ground (arith, eq_refl p) }

pub sim-IsRandomSource : IsRandomSource sim
sim-IsRandomSource = record { below = λ n s k h. random_below n s k h }
  where
    random_below : (n : ℕ) (s : Memory) (k : ℕ) → (sim.random_int n s).0 ≡ ok k → k < n
    random_below zero s k h = absurd (ground arith)
    random_below (suc m) s k h = ground arith

pub sim-IsConditionStore : IsConditionStore sim
sim-IsConditionStore = record { find-set = λ conditions c. ground (arith, eq_refl c.kind) }

pub sim-IsDatabaseCatalog : IsDatabaseCatalog sim "orders" "app" "" ""
sim-IsDatabaseCatalog = record {
  has = λ s. has_orders s.statements;
  told = λ s conn b h. ground arith;
  opened = λ s conn. refl;
  queried = λ s conn query arg. refl;
  terminated = λ s conn. refl;
  altered = λ s conn. refl;
  schema_altered = λ s conn. refl;
  created = λ s conn h. refl;
  dropped = λ s conn h. refl;
}
