-- ===== src/Lib.antt =====
-- A model of k8s-postgresql-operator, the Kubernetes operator that manages users, databases,
-- schemas, grants and role groups in PostgreSQL servers, with passwords in Vault.
--
-- The parts and how they interact. A resource is admitted by a webhook, which asks Vault for its
-- health, the API server for the other resources and the PostgreSQL server for a connection. A
-- reconciler then takes the resource to the server: it finds the instance by its ID, reads the
-- administrator's credentials from Vault, runs SQL with retries, and writes the status. The
-- reconciler of instances tests connections, registers default credentials and rotates passwords.
-- At the start the operator logs in to Vault, gets the certificate of its webhooks from Vault PKI
-- or makes one, and puts its authority into the webhook configurations; a loop renews the
-- certificate, and another counts the resources for the metrics.
--
-- The files:
--   Errors: internal/errors/errors.go, with Vault's sentinel. A Go error is a chain of the data
--     type Error; errors.Is walks it.
--   Api: the resources of api/v1alpha1, with the fields that the operator reads or writes.
--   World: everything outside. Env is a record of the operations of Vault's client, database/sql,
--     controller-runtime's client, the clock and the random source, over a state of its own;
--     World adds the trace of the calls made. Its field platform, in World/Machine, has what the
--     start meets: files, Vault's login and logical interface, client-go and the crypto library;
--     its field runtime, in World/Libraries, what runs the operator: controller-runtime and
--     OpenTelemetry. M is state passing over it, and Action adds a Go error.
--   Vault: internal/vault/vault.go. Credentials in the key-value store, as a map in Refinement;
--     Pki has the login and the certificates.
--   Retry: the loop that internal/postgresql/retry.go, internal/postgresql/connection.go and
--     internal/controller/connection_retry.go repeat, as one function of a Plan, and its instances.
--   Postgres: internal/postgresql. Connection (connection.go), Databases (CreateOrUpdateDatabase,
--     CreateOrUpdateSchema, DeleteDatabase), Roles (CreateOrUpdateUser, CreateOrUpdateRoleGroup),
--     Grants (ApplyGrants), Client (interface.go), Plain (the values that the connection
--     string, which quotes nothing, can hold).
--   Cluster: internal/k8s/crd_verification.go and internal/k8s/duplicate_check.go.
--   Webhook: internal/webhook, one handle function for each validator, on a request that the
--     library has decoded.
--   Controller: internal/controller. The base, Databases, Users, Privileges (grants, role groups
--     and schemas) and Instances, one function for each Reconcile and each of its steps; Instance
--     (helpers/reconcile.go). Agreement has the administrator's credentials in Vault and on the
--     server over a round of Instances, and over histories of rounds as a step relation.
--   Certificates: internal/cert. Pki (vault_pki.go), Renewal (its loop, by rounds), SelfSigned
--     (cert.go).
--   Startup: Config (internal/config/config.go), Webhooks (internal/k8s/k8s.go), Entry
--     (cmd/main.go, and what it gives to reconcilers and validators), Telemetry
--     (internal/telemetry/telemetry.go, whether there is a tracer), Main (cmd/main.go from the
--     manager on, SetupControllers, RegisterWebhooks), Texts (strings.Split at a comma and
--     strings.TrimSpace).
--   Metrics: internal/metrics/collector.go, and the gauges and counters of
--     internal/metrics/metrics.go.
--   Tests: a small world, and the theorems at concrete inputs in it.
--
-- Conventions. Names are the source's in snake_case. An operation that returns an error is an
-- Action; a loop of retries is recursion on the rounds that are left, which are as many as the
-- retries, so that it needs no further fuel. The renewal loop and that of the metrics, which need
-- not end, are their first rounds, for every number of them. A panic in the computation of a
-- delay ends its loop as the end of the context does. An error at the start ends the process. Times are in nanoseconds. Numbers are natural: a count of retries that is negative in
-- Go acts as 0 does. Each interaction with the outside is one field of Env, an assumption on which
-- is a record with a name of its own: IsKeyValueStore, IsReliableStore, IsRandomSource,
-- IsConditionStore, IsRoleCatalog, IsDatabaseCatalog, IsFileSystem, IsAccountWorld,
-- HasPlainDefaults, IsCertificateStore. Closing connections and responses, log lines, spans, and the observation of
-- durations are left out, and so are contexts, except where a wait can be canceled.
--
-- Not modelled: log lines and spans; the flags and the environment (cmd/flag.go), which libraries
-- read; TLS options and the handler of signals; LoadCert, which only calls crypto/tls; the generated
-- deep copies and the doubles for tests; locks, since one call runs at a time; the queue and the
-- leader election of controller-runtime.
pub mod Prelude
pub mod Errors
pub mod Api
pub mod World
pub mod Vault
pub mod Retry
pub mod Cluster
pub mod Postgres
pub mod Webhook
pub mod Certificates
pub mod Startup
pub mod Metrics
pub mod Controller
pub mod Tests
