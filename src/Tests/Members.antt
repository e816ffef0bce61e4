-- ===== src/Tests/Members.antt =====
-- A role catalog for the small world: a role is a member by the latest statement on it.
use package.text.Mathlib.TextLemmas.{append_cancel_left, append_inj, append_assoc}
use k8s_postgresql_operator.Prelude.{
  String, ◌<>◌, ◌≡◌, refl, ◌≢◌, Bool, true, false, not, ◌&&◌, ◌||◌, List, [], ◌∷◌, ◌==◌, arith,
  eq_iff, ◌∙◌, if◌then◌else◌,
}
use k8s_postgresql_operator.World.{ok}
use k8s_postgresql_operator.Postgres.Roles.{grant_role, revoke_role}
use k8s_postgresql_operator.Postgres.Roles.Members.{IsRoleCatalog}
use k8s_postgresql_operator.Tests.Simulation.{sim}

abbrev pub is_member : List String → String → Bool
is_member [] x = false
is_member (q ∷ log) x =
    let before = is_member log x in
    if q == grant_role sim "readers" x
    then true
    else if q == revoke_role sim "readers" x
    then false
    else before

same_grant : (x y : String) → grant_role sim "readers" x ≡ grant_role sim "readers" y → x ≡ y
same_grant x y h = append_cancel_left " TO " x y (
    append_cancel_left "readers" (" TO " <> x) (" TO " <> y)
      (append_cancel_left "GRANT " ("readers" <> (" TO " <> x)) ("readers" <> (" TO " <> y)) h))

same_revoke : (x y : String) → revoke_role sim "readers" x ≡ revoke_role sim "readers" y → x ≡ y
same_revoke x y h = append_cancel_left " FROM " x y (
    append_cancel_left "readers" (" FROM " <> x) (" FROM " <> y) (
      append_cancel_left "REVOKE " ("readers" <> (" FROM " <> x)) ("readers" <> (" FROM " <> y)) h))

grant_differs : (x y : String) → grant_role sim "readers" x ≢ revoke_role sim "readers" y
grant_differs x y h =
    let heads =
      append_inj {s₁ = "GRANT "} {s₂ = "REVOKE"} {t₁ = "readers" <> (" TO " <> x)}
        {t₂ = " " <> ("readers" <> (" FROM " <> y))}
        (h ∙ append_assoc "REVOKE" " " ("readers" <> (" FROM " <> y))) refl in
    absurd (ground (arith, eq_iff "GRANT " "REVOKE", heads.0))

pub after_grant :
    (log : List String) (x y : String)
    → is_member (grant_role sim "readers" x ∷ log) y ≡ (x == y || is_member log y)
after_grant log x y = ground (
  arith,
  eq_iff x y,
  eq_iff (grant_role sim "readers" x) (grant_role sim "readers" y),
  eq_iff (grant_role sim "readers" x) (revoke_role sim "readers" y),
  same_grant x y,
  grant_differs x y,
)

pub after_revoke :
    (log : List String) (x y : String)
    → is_member (revoke_role sim "readers" x ∷ log) y ≡ (not (x == y) && is_member log y)
after_revoke log x y = ground (
  arith,
  eq_iff x y,
  eq_iff (revoke_role sim "readers" x) (revoke_role sim "readers" y),
  eq_iff (revoke_role sim "readers" x) (grant_role sim "readers" y),
  same_revoke x y,
  grant_differs y x,
)

pub truth : (b : Bool) → ok true ≡ ok b → b ≡ true
truth b h = ground arith

abbrev pub sim-IsRoleCatalog : (conn : String) → IsRoleCatalog sim conn "readers"
sim-IsRoleCatalog conn = record {
  member = λ s x. is_member s.statements x;
  role = λ s x. true;
  member_is_role = λ s x h. refl;
  told = λ s x b h. truth b h;
  query_keeps = λ s x y. (refl, refl);
  granted = λ s x y h. (after_grant s.statements x y, refl);
  revoked = λ s x y h. (after_revoke s.statements x y, refl);
}
