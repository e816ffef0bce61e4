-- ===== src/Api.antt =====
-- The custom resources (api/v1alpha1), with the fields that the operator reads or writes.
use k8s_postgresql_operator.Prelude.{ℕ, String, Bool, Option, List}

-- `metav1.ObjectMeta`
pub record ObjectMeta : Type 0 where
  pub name : String
  pub namespace : String
  pub generation : ℕ
  pub deletion_timestamp : Option ℕ
  pub finalizers : List String

pub data ConditionStatus : Type 0 where
  condition_true condition_false : ConditionStatus

-- `metav1.Condition`. The transition time, which the library keeps, is left out.
pub record Condition : Type 0 where
  pub kind : String
  pub status : ConditionStatus
  pub reason : String
  pub message : String
  pub observed_generation : ℕ

pub record ExternalPostgresqlInstance : Type 0 where
  pub postgresql_id : String
  pub address : String
  pub port : ℕ
  pub ssl_mode : String

pub record Postgresql : Type 0 where
  pub meta : ObjectMeta
  pub external_instance : Option ExternalPostgresqlInstance
  pub connected : Bool
  pub connection_address : String
  pub last_connection_attempt : Option ℕ
  pub conditions : List Condition

-- What the statuses of the other five resources have in common. A grant's `Applied` is `created`.
pub record SyncStatus : Type 0 where
  pub created : Bool
  pub last_sync_attempt : Option ℕ
  pub conditions : List Condition

pub record UserSpec : Type 0 where
  pub username : String
  pub update_password : Bool
  pub postgresql_id : String

pub record User : Type 0 where
  pub meta : ObjectMeta
  pub spec : UserSpec
  pub status : SyncStatus
  pub last_applied_password_hash : String

pub record DatabaseSpec : Type 0 where
  pub database : String
  pub owner : String
  pub schema : String
  pub postgresql_id : String
  pub delete_from_crd : Bool
  pub db_template : String

pub record Database : Type 0 where
  pub meta : ObjectMeta
  pub spec : DatabaseSpec
  pub status : SyncStatus

-- `GrantType` is a string type: a value that is none of the seven constants is `other_type`.
pub data GrantType : Type 0 where
  database_type schema_type table_type sequence_type function_type : GrantType
  all_tables_type all_sequences_type : GrantType
  other_type : String → GrantType

pub record GrantItem : Type 0 where
  pub type : GrantType
  pub schema : String
  pub table : String
  pub sequence : String
  pub function : String
  pub privileges : List String

pub record DefaultPrivilegeItem : Type 0 where
  pub object_type : String
  pub schema : String
  pub privileges : List String

pub record GrantSpec : Type 0 where
  pub role : String
  pub database : String
  pub postgresql_id : String
  pub grants : List GrantItem
  pub default_privileges : List DefaultPrivilegeItem

pub record Grant : Type 0 where
  pub meta : ObjectMeta
  pub spec : GrantSpec
  pub status : SyncStatus

pub record RoleGroupSpec : Type 0 where
  pub group_role : String
  pub member_roles : List String
  pub postgresql_id : String

pub record RoleGroup : Type 0 where
  pub meta : ObjectMeta
  pub spec : RoleGroupSpec
  pub status : SyncStatus

pub record SchemaSpec : Type 0 where
  pub schema : String
  pub owner : String
  pub postgresql_id : String

pub record Schema : Type 0 where
  pub meta : ObjectMeta
  pub spec : SchemaSpec
  pub status : SyncStatus

-- A resource as the Kubernetes client takes it.
pub data Object : Type 0 where
  postgresql_object : Postgresql → Object
  user_object : User → Object
  database_object : Database → Object
  grant_object : Grant → Object
  rolegroup_object : RoleGroup → Object
  schema_object : Schema → Object
