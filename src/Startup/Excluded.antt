-- ===== src/Startup/Excluded.antt =====
-- The list of excluded users (cmd/main.go, parseExcludeUserList): what is written with commas is read
-- again.
use Prim.Native.Char.{Char, code}
use Prim.Native.String.{String, [], ◌∷◌, ◌++◌ as ◌<>◌}
use text.Mathlib.TextLemmas.{nil-append, cons-append, append_assoc}
use mathlib.Core.List.{List, [] as nil, ◌∷◌ as ◌⊳◌}
use k8s_postgresql_operator.Prelude.{
  ℕ, ◌≡◌, ◌≢◌, refl, sym, ap, ◌∙◌, Bool, true, false, not, ◌&&◌, ◌==◌, eqb, arith, eq_iff,
  Bool-cases, inl, inr, map, join, All,
}
use k8s_postgresql_operator.Startup.Texts.{
  is_space_code, is_space, trim_left, trim_right, trim_space, split_commas,
}
use k8s_postgresql_operator.Startup.Config.{Config}
use k8s_postgresql_operator.Startup.Entry.{parse_exclude_user_list}

-- Whether a text has no comma.
unfoldable pub has_no_comma : String → Bool
has_no_comma [] = true
has_no_comma (c ∷ s) = not (eqb (code c) 44) && has_no_comma s

-- Whether a text is of spaces only.
unfoldable pub is_blank : String → Bool
is_blank [] = true
is_blank (c ∷ s) = is_space c && is_blank s

-- A user's name that a list can hold: not empty, without a comma, and without a space at its ends.
unfoldable pub IsListable : String → Type 0
IsListable s = (s ≢ "") × (has_no_comma s ≡ true) × (trim_space s ≡ s)

has_no_comma-append :
    (s t : String) → has_no_comma s ≡ true → has_no_comma t ≡ true → has_no_comma (s <> t) ≡ true
unfolding has_no_comma
has_no_comma-append [] t h h' = ap has_no_comma (nil-append t) ∙ h'
has_no_comma-append (c ∷ s) t h h' =
    ap has_no_comma (cons-append c s t) ∙ ground (arith, has_no_comma-append s t)

comma_code : (n : ℕ) → eqb n 44 ≡ true → n ≡ 44
comma_code n h = ground (arith)

space_no_comma : (c : Char) → is_space c ≡ true → eqb (code c) 44 ≡ false
unfolding is_space
space_no_comma c h = elim (Bool-cases (eqb (code c) 44)) [
  | inr e ↦ e
  | inl e ↦
      let n : code c ≡ 44 = comma_code (code c) e in absurd (no_path (sym (ap is_space_code n) ∙ h))
]
  where
    no_path : is_space_code 44 ≡ true → ⊥
    no_path e = ground (arith, e)

blank-has_no_comma : (s : String) → is_blank s ≡ true → has_no_comma s ≡ true
unfolding has_no_comma is_blank
blank-has_no_comma [] h = refl
blank-has_no_comma (c ∷ s) h = ground (arith, space_no_comma c, blank-has_no_comma s)

trim_left-blank : (s t : String) → is_blank s ≡ true → trim_left (s <> t) ≡ trim_left t
unfolding is_blank trim_left
trim_left-blank [] t h = ap trim_left (nil-append t)
trim_left-blank (c ∷ s) t h = ap trim_left (cons-append c s t) ∙ ground (arith, trim_left-blank s t)

split_commas-last : (s : String) → has_no_comma s ≡ true → split_commas s ≡ (s ⊳ nil)
unfolding has_no_comma split_commas
split_commas-last [] h = refl
split_commas-last (c ∷ s) h = ground (arith, split_commas-last s)

split_commas-field :
    (s t : String) → has_no_comma s ≡ true → split_commas (s <> ("," <> t)) ≡ (s ⊳ split_commas t)
unfolding has_no_comma split_commas
split_commas-field [] t h =
    let comma : Char = "," in
    ap split_commas (nil-append ("," <> t) ∙ cons-append comma [] t)
    ∙ ap (λ r. "" ⊳ split_commas r) (nil-append t)
split_commas-field (c ∷ s) t h =
    ap split_commas (cons-append c s ("," <> t)) ∙ ground (arith, split_commas-field s t)

-- The fields of a joined list behind a blank text.
fields :
    (gap start s : String) (rest : List String)
    → is_blank gap ≡ true
    → is_blank start ≡ true
    → All IsListable (s ⊳ rest)
    → map trim_space (split_commas (start <> join ("," <> gap) (s ⊳ rest))) ≡ (s ⊳ rest)
unfolding IsListable trim_space
fields gap start s nil hg hs hl =
    let plain = has_no_comma-append start s (blank-has_no_comma start hs) hl.0.1 in
    ap (map trim_space) (split_commas-last (start <> s) plain)
    ∙ ap (λ x. trim_right x ⊳ nil) (trim_left-blank start s hs)
    ∙ ap (λ x. x ⊳ nil) hl.0.2
fields gap start s (t ⊳ rest) hg hs hl =
    let more = join ("," <> gap) (t ⊳ rest) in
    let plain = has_no_comma-append start s (blank-has_no_comma start hs) hl.0.1 in
    let shape =
      sym (append_assoc start s (("," <> gap) <> more))
      ∙ ap (λ x. (start <> s) <> x) (append_assoc "," gap more) in
    ap (λ x. map trim_space (split_commas x)) shape
    ∙ ap (map trim_space) (split_commas-field (start <> s) (gap <> more) plain)
    ∙ ap (λ x. trim_right x ⊳ map trim_space (split_commas (gap <> more)))
        (trim_left-blank start s hs)
    ∙ (λ i. hl.0.2 i ⊳ fields gap gap t rest hg hg hl.1 i)

first : List String → String
first nil = ""
first (s ⊳ rest) = s

-- Names that are not empty, have no comma and have no space at their ends are read back in their
-- order from the list in which they are joined by commas that are each followed by one fixed text
-- of spaces, or by none.
pub parse_exclude_user_list-join :
    (cfg : Config) (gap : String) (names : List String)
    → is_blank gap ≡ true
    → All IsListable names
    → cfg.exclude_user_list ≡ join ("," <> gap) names
    → parse_exclude_user_list cfg ≡ names
unfolding parse_exclude_user_list IsListable is_blank split_commas trim_space trim_left trim_right
    first
parse_exclude_user_list-join cfg gap nil hg hl h =
    ground (arith, h, eq_iff cfg.exclude_user_list "")
parse_exclude_user_list-join cfg gap (s ⊳ rest) hg hl h =
    let read : map trim_space (split_commas cfg.exclude_user_list) ≡ (s ⊳ rest) =
      ap (λ x. map trim_space (split_commas x))
        (h ∙ sym (nil-append (join ("," <> gap) (s ⊳ rest))))
      ∙ fields gap "" s rest hg refl hl in
    elim (Bool-cases (cfg.exclude_user_list == "")) [
      | inr e ↦ ground (arith, read)
      | inl e ↦
          let empty : cfg.exclude_user_list ≡ "" = (eq_iff cfg.exclude_user_list "").0 e in
          let one = ap (λ x. map trim_space (split_commas x)) (sym empty) ∙ read in
          absurd (hl.0.0 (sym (ap first one)))
    ]
