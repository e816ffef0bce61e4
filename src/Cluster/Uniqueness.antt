-- ===== src/Cluster/Uniqueness.antt =====
-- What the lookups and the duplicate checks find (internal/k8s), and the uniqueness that they keep.
use k8s_postgresql_operator.Prelude.{
  String, ◌≡◌, refl, ◌↔◌, ◌⊎◌, inl, inr, Bool, true, false, none, some, List, [], ◌∷◌, ◌<>◌, arith,
  All, Bool-cases, if◌then◌else◌, ◌∙◌, Option-cases,
}
use k8s_postgresql_operator.Errors.{Error, plain}
use k8s_postgresql_operator.Api.{ObjectMeta, Postgresql}
use k8s_postgresql_operator.World.{Env, World, ok, err}
use k8s_postgresql_operator.Cluster.{
  is_current, first_match, first_duplicate, has_postgresql_id, find_postgresql_by_id,
}

-- A resource that the review does not skip has other keys.
abbrev pub IsFree {ℓ} :
    {A : Type ℓ} → (A → ObjectMeta) → (A → Bool) → String → String → Bool → List A → Type 0
IsFree meta matches name namespace is_update items =
    All (λ x. is_current name namespace is_update (meta x) ≡ false → matches x ≡ false) items

module _ {A : Type 0} (meta : A → ObjectMeta) (matches : A → Bool) (name namespace : String)
    (is_update : Bool) where
  pub IsFree-of_none :
      (items : List A)
      → first_duplicate meta matches name namespace is_update items ≡ none
      → IsFree meta matches name namespace is_update items
  unfolding first_duplicate
  IsFree-of_none [] h = tt
  IsFree-of_none (x ∷ xs) h = elim (Bool-cases (is_current name namespace is_update (meta x))) [
    | inl skip ↦ ((λ other. ground arith), IsFree-of_none xs (rw skip at h))
    | inr keep ↦ elim (Bool-cases (matches x)) [
      | inl found ↦ absurd (ground arith)
      | inr differs ↦ ((λ other. differs), IsFree-of_none xs (ground arith))
    ]
  ]

  none_of_IsFree :
      (items : List A)
      → IsFree meta matches name namespace is_update items
      → first_duplicate meta matches name namespace is_update items ≡ none
  unfolding first_duplicate
  none_of_IsFree [] h = refl
  none_of_IsFree (x ∷ xs) (hx, hs) =
      elim (Bool-cases (is_current name namespace is_update (meta x))) [
        | inl skip ↦ rw skip (none_of_IsFree xs hs)
        | inr keep ↦ rw (keep, hx keep) (none_of_IsFree xs hs)
      ]

  -- The duplicate check finds none exactly if no listed resource other than the current one
  -- matches.
  pub first_duplicate-none_iff :
      (items : List A)
      → (first_duplicate meta matches name namespace is_update items ≡ none)
        ↔ IsFree meta matches name namespace is_update items
  first_duplicate-none_iff items = (IsFree-of_none items, none_of_IsFree items)

-- No two of the listed resources are the same by their keys.
abbrev pub IsApart {ℓ} : {A : Type ℓ} → (A → A → Bool) → List A → Type 0
IsApart same [] = Unit
IsApart same (x ∷ xs) = All (λ y. same x y ≡ false) xs × IsApart same xs

-- At most one of the listed resources has the name, in its namespace.
abbrev pub AtMostOne {ℓ} : {A : Type ℓ} → (A → ObjectMeta) → String → String → List A → Type 0
AtMostOne meta name namespace [] = Unit
AtMostOne meta name namespace (x ∷ xs) =
    (is_current name namespace true (meta x) ≡ true
      → All (λ y. is_current name namespace true (meta y) ≡ false) xs)
    × AtMostOne meta name namespace xs

-- What the API server lists once it has stored an allowed resource: a new one besides the others,
-- an updated one in the place of the one of its name.
pub stored {ℓ} : {A : Type ℓ} → (A → ObjectMeta) → String → String → Bool → A → List A → List A
stored meta name namespace false new items = new ∷ items
stored meta name namespace true new [] = []
stored meta name namespace true new (x ∷ xs) =
    (if is_current name namespace true (meta x) then new else x)
    ∷ stored meta name namespace true new xs

module _ {A : Type 0} (meta : A → ObjectMeta) (same : A → A → Bool)
    (symmetric : (x y : A) → same x y ≡ same y x) (name namespace : String) (new : A) where
  All-stored :
      (P : A → Type 0) (items : List A)
      → P new
      → All P items
      → All P (stored meta name namespace true new items)
  unfolding stored
  All-stored P [] h hs = tt
  All-stored P (x ∷ xs) h (hx, hs) = (
    (elim (Bool-cases (is_current name namespace true (meta x))) [
      | inl current ↦ rw current h
      | inr another ↦ rw another hx
    ]),
    All-stored P xs h hs,
  )

  All-free :
      (items : List A)
      → All (λ y. is_current name namespace true (meta y) ≡ false) items
      → IsFree meta (same new) name namespace true items
      → All (λ y. same new y ≡ false) items
  All-free [] others free = tt
  All-free (x ∷ xs) (ox, os) (fx, fs) = (fx ox, All-free xs os fs)

  stored_others :
      (items : List A)
      → All (λ y. is_current name namespace true (meta y) ≡ false) items
      → stored meta name namespace true new items ≡ items
  unfolding stored
  stored_others [] others = refl
  stored_others (x ∷ xs) (ox, os) = rw (ox, stored_others xs os)

  All-free_of_create :
      (items : List A)
      → IsFree meta (same new) name namespace false items
      → All (λ y. same new y ≡ false) items
  All-free_of_create [] free = tt
  All-free_of_create (x ∷ xs) (fx, fs) = (fx refl, All-free_of_create xs fs)

  stored_update-IsApart :
      (items : List A)
      → AtMostOne meta name namespace items
      → IsFree meta (same new) name namespace true items
      → IsApart same items
      → IsApart same (stored meta name namespace true new items)
  unfolding stored
  stored_update-IsApart [] once free apart = tt
  stored_update-IsApart (x ∷ xs) (ox, os) (fx, fs) (ax, as_) =
      elim (Bool-cases (is_current name namespace true (meta x))) [
        | inl current ↦
            let others = ox current in
            rw (current, stored_others xs others) (All-free xs others fs, as_)
        | inr another ↦ rw another (
          All-stored (λ y. same x y ≡ false) xs (symmetric x new ∙ fx another) ax,
          stored_update-IsApart xs os fs as_,
        )
      ]

  -- If no two of the listed resources are the same by their keys, the sameness is symmetric, at
  -- most one has the name of the new one, and the duplicate check for the new one finds none,
  -- then no two are the same after it is stored, be it created or updated.
  pub stored-IsApart :
      (is_update : Bool) (items : List A)
      → AtMostOne meta name namespace items
      → IsApart same items
      → first_duplicate meta (same new) name namespace is_update items ≡ none
      → IsApart same (stored meta name namespace is_update new items)
  unfolding stored
  stored-IsApart true items once apart free =
      stored_update-IsApart items once
        (IsFree-of_none meta (same new) name namespace true items free) apart
  stored-IsApart false items once apart free = (
    All-free_of_create items (IsFree-of_none meta (same new) name namespace false items free),
    apart,
  )

module _ {A : Type 0} (test : A → Bool) where
  -- What the search returns passes its test.
  pub first_match-some : (items : List A) {x : A} → first_match test items ≡ some x → test x ≡ true
  unfolding first_match
  first_match-some [] h = cc
  first_match-some (y ∷ ys) {x} h = ground (arith, first_match-some ys {x = x})

  pub first_match-none :
      (items : List A) → first_match test items ≡ none → All (λ x. test x ≡ false) items
  unfolding first_match
  first_match-none [] h = tt
  first_match-none (y ∷ ys) h = elim (Bool-cases (test y)) [
    | inl found ↦ absurd (ground arith)
    | inr differs ↦ (differs, first_match-none ys (ground arith))
  ]

-- If the instances can be listed, the lookup by ID returns an instance with that ID, or an error
-- where no listed instance has it.
pub find_postgresql_by_id_correct :
    (E : Env) (postgresql_id : String) (w : World E) {items : List Postgresql}
    → (E.list_postgresqls w.state).0 ≡ ok items
    → ((p : Postgresql) × ((find_postgresql_by_id E postgresql_id w).0 ≡ ok p)
        × (has_postgresql_id postgresql_id p ≡ true))
      ⊎ ((e : Error) × ((find_postgresql_by_id E postgresql_id w).0 ≡ err e)
          × All (λ p. has_postgresql_id postgresql_id p ≡ false) items)
unfolding find_postgresql_by_id
find_postgresql_by_id_correct E postgresql_id w {items} listed =
    elim (Option-cases (first_match (has_postgresql_id postgresql_id) items)) [
      | inl nothing ↦ inr (
        plain ("PostgreSQL instance with ID " <> postgresql_id <> " not found"),
        ground arith,
        first_match-none (has_postgresql_id postgresql_id) items nothing,
      )
      | inr (p, found) ↦
          inl (p, ground arith, first_match-some (has_postgresql_id postgresql_id) items found)
    ]
