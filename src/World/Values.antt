-- ===== src/World/Values.antt =====
-- The values that calls of the outside take and give.
use k8s_postgresql_operator.Prelude.{ℕ, String, Option, List, ◌≡◌, refl, ◌⊎◌, inl, inr}
use k8s_postgresql_operator.Errors.{Error}

-- A Go function's result and its error, one of which is meant.
pub data Result {ℓ} (A : Type ℓ) : Type ℓ where
  ok : A → Result A
  err : Error → Result A

-- A value of a `map[string]interface{}`: a string, or a value of another type.
pub data Value : Type 0 where
  text : String → Value
  other : Value

abbrev pub Data : Type 0
Data = List (String × Value)

-- What `rows.Next`, `Scan` and `rows.Err` give for a query: the rows, and the final error.
pub record Rows : Type 0 where
  pub items : List (Result String)
  pub failure : Option Error

-- A value of the data of Vault's logical interface: a text, a number with the integer that it
-- stands for where it has one, a list, or a value of another type.
pub data Answer : Type 0 where
  text_answer : String → Answer
  number_answer : Option ℕ → Answer
  list_answer : List Value → Answer
  other_answer : Answer

abbrev pub Answers : Type 0
Answers = List (String × Answer)

-- A webhook of a `ValidatingWebhookConfiguration`, and the configuration.
pub record WebhookEntry : Type 0 where
  pub name : String
  pub ca_bundle : String

abbrev pub WebhookConfiguration : Type 0
WebhookConfiguration = List WebhookEntry

-- The template of a certificate, `x509.Certificate`, but for the usages of its key.
pub record CertificateTemplate : Type 0 where
  pub serial : ℕ
  pub common_name : String
  pub organization : List String
  pub not_before : ℕ
  pub not_after : ℕ
  pub dns_names : List String
  pub ip_addresses : List String

pub Result-cases {ℓ} :
    {A : Type ℓ} (r : Result A) → ((a : A) × (r ≡ ok a)) ⊎ ((e : Error) × (r ≡ err e))
Result-cases (ok a) = inl (a, refl)
Result-cases (err e) = inr (e, refl)
