-- ===== src/Vault/Paths.antt =====
-- The paths of the users' secrets in Vault (internal/vault/vault.go): an ID without a slash and a name
-- are read off them.
use Prim.Native.Char.{Char, code}
use Prim.Native.String.{String, [], ◌∷◌, ◌++◌ as ◌<>◌}
use text.Mathlib.TextLemmas.{
  nil-append, cons-append, append_cancel_left, head-eq_of_cons-eq, tail-eq_of_cons-eq,
}
use k8s_postgresql_operator.Prelude.{◌≡◌, refl, sym, ap, ◌∙◌, Bool, true, not, ◌&&◌, eqb, arith}
use k8s_postgresql_operator.Vault.{user_path}

-- Whether a text has no slash.
unfoldable pub is_segment : String → Bool
is_segment [] = true
is_segment (c ∷ s) = not (eqb (code c) 47) && is_segment s

-- A text that begins with a slash is no text that begins with a segment's character.
not_slash : (c : Char) (s t b : String) → is_segment (c ∷ s) ≡ true → "/" <> b ≡ (c ∷ s) <> t → ⊥
unfolding is_segment
not_slash c s t b h e =
    let slash : Char = "/" in
    let p = sym (cons-append slash [] b) ∙ e ∙ cons-append c s t in
    ground (arith, h, ap code (head-eq_of_cons-eq p))

cut_segment :
    (a a' b b' : String)
    → is_segment a ≡ true
    → is_segment a' ≡ true
    → a <> ("/" <> b) ≡ a' <> ("/" <> b')
    → (a ≡ a') × (b ≡ b')
unfolding is_segment
cut_segment [] [] b b' h h' e =
    (refl, append_cancel_left "/" b b' (sym (nil-append ("/" <> b)) ∙ e ∙ nil-append ("/" <> b')))
cut_segment [] (c ∷ a') b b' h h' e =
    absurd (not_slash c a' ("/" <> b') b h' (sym (nil-append ("/" <> b)) ∙ e))
cut_segment (c ∷ a) [] b b' h h' e =
    absurd (not_slash c a ("/" <> b) b' h (sym (nil-append ("/" <> b')) ∙ sym e))
cut_segment (c ∷ a) (c' ∷ a') b b' h h' e =
    let p = sym (cons-append c a ("/" <> b)) ∙ e ∙ cons-append c' a' ("/" <> b') in
    let (q, r) = cut_segment a a' b b' (ground (arith)) (ground (arith)) (tail-eq_of_cons-eq p) in
    ((λ i. head-eq_of_cons-eq p i ∷ q i), r)

-- The path of a user tells the ID and the name, where the IDs have no slash.
pub user_path-injective :
    (secret_path id id' username username' : String)
    → is_segment id ≡ true
    → is_segment id' ≡ true
    → user_path secret_path id username ≡ user_path secret_path id' username'
    → (id ≡ id') × (username ≡ username')
unfolding user_path
user_path-injective secret_path id id' username username' h h' e =
    let e₁ =
      append_cancel_left secret_path ("/" <> id <> "/" <> username) ("/" <> id' <> "/" <> username')
        e in
    let e₂ = append_cancel_left "/" (id <> "/" <> username) (id' <> "/" <> username') e₁ in
    cut_segment id id' username username' h h' e₂
