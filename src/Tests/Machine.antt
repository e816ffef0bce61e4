-- ===== src/Tests/Machine.antt =====
-- The state of the small world, and the part of it that the operator meets at its start: files
-- that are remembered, and one certificate that Vault PKI issues.
use k8s_postgresql_operator.Prelude.{
  String, ◌<>◌, true, false, Option, none, some, List, [], ◌∷◌, ◌==◌, if◌then◌else◌,
}
use k8s_postgresql_operator.Errors.{plain}
use k8s_postgresql_operator.World.{
  Result, ok, err, text, Data, Answers, text_answer, list_answer, WebhookEntry, Platform, Runtime,
}
use k8s_postgresql_operator.Startup.Webhooks.{operator_webhook}

pub record Memory : Type 0 where
  pub secrets : List (String × Data)
  pub statements : List String
  pub files : List (String × String)

abbrev pub lookup : {A : Type 0} → String → List (String × A) → Option A
lookup p [] = none
lookup p ((q, d) ∷ rest) = if q == p then some d else lookup p rest

abbrev read_answer : Option String → Result String
read_answer none = err (plain "no such file")
read_answer (some c) = ok c

-- The certificate that Vault PKI issues.
abbrev issued_answers : Answers
issued_answers =
    ("certificate", text_answer "new certificate")
    ∷ ("private_key", text_answer "new key")
    ∷ ("ca_chain", list_answer (text "root" ∷ text "middle" ∷ []))
    ∷ []

abbrev pub first_hook : WebhookEntry
first_hook = record { name = "first"; ca_bundle = "" }

abbrev pub operator_hook : WebhookEntry
operator_hook = record { name = operator_webhook; ca_bundle = "" }

abbrev pub machine : Platform Memory
machine = record {
  read_file = λ p s. (read_answer (lookup p s.files), s);
  write_file = λ p c s. (ok tt, record s { files = (p, c) ∷ s.files });
  create_file = λ p s. (ok tt, record s { files = (p, "") ∷ s.files });
  append_file = λ p c s. (ok tt, record s { files = (p, c) ∷ s.files });
  make_dir = λ p s. (ok tt, s);
  make_temp_dir = λ p s. (ok ("/tmp/" <> p), s);
  vault_client = λ a s. (ok tt, s);
  kubernetes_auth = λ role token s. (ok tt, s);
  login = λ role s. (ok true, s);
  logical_write = λ p d s. (ok (some issued_answers), s);
  logical_read = λ p s. (ok (some issued_answers), s);
  clientset = λ s. (ok tt, s);
  get_k8s_secret = λ ns name s. (ok (some (("tls.crt", "bundle") ∷ [])), s);
  create_k8s_secret = λ ns name d s. (ok tt, s);
  update_k8s_secret = λ ns name d s. (ok tt, s);
  get_webhook = λ name s. (ok (first_hook ∷ operator_hook ∷ []), s);
  update_webhook = λ name c s. (ok tt, s);
  generate_key = λ s. (ok "key", s);
  create_certificate = λ t key s. (ok "certificate", s);
  certificate_pem = λ d. d;
  key_pem = λ k. k;
  decode_pem = λ p. some p;
  parse_certificate = λ d. ok 1000;
  join_path = λ dir name. dir <> "/" <> name;
  parse_duration = λ d. ok 100;
  wait_or_stop = λ d s. (false, s);
}

-- The libraries that run the operator, none of whose calls fails.
abbrev pub libraries : Runtime Memory
libraries = record {
  otlp_exporter_of = λ endpoint insecure s. (ok tt, s);
  otel_resource_of = λ name version s. (ok tt, s);
  shutdown_tracer = λ timeout s. (ok tt, s);
  new_cert_watcher = λ cert key s. (ok tt, s);
  new_manager = λ address leader s. (ok tt, s);
  complete_controller = λ name s. (ok tt, s);
  add_runnable = λ name s. (ok tt, s);
  add_healthz_check = λ name s. (ok tt, s);
  add_readyz_check = λ name s. (ok tt, s);
  start_manager = λ s. (ok tt, s);
}
