-- ===== src/Startup/Order.antt =====
-- The order in which the operator starts (cmd/main.go): what a part of the start calls of
-- controller-runtime and OpenTelemetry, in order.
use k8s_postgresql_operator.Prelude.{
  ◌≡◌, refl, sym, ap, ◌∙◌, ◌⊎◌, inl, inr, List, [], ◌∷◌, ◌++◌, arith,
}
use mathlib.Core.List.{append_assoc, append-nil}
use k8s_postgresql_operator.Errors.{Error}
use k8s_postgresql_operator.World.{
  Env, World, M, Action, Result, ok, err, Effect, RuntimeCall, cert_watcher, runtime_call,
  Result-cases, map_err,
}
use k8s_postgresql_operator.World.Fallible.{◌>>=◌}
use k8s_postgresql_operator.Startup.Main.{library}

-- A call without the paths of the certificate, which are found at the start.
abbrev pub masked : RuntimeCall → RuntimeCall
masked (cert_watcher cert key) = cert_watcher "" ""
masked c = c

-- The calls in a trace, the first of them first.
unfoldable pub calls : List Effect → List RuntimeCall
calls [] = []
calls (runtime_call c ∷ trace) = calls trace ++ (masked c ∷ [])
calls (_ ∷ trace) = calls trace

-- Code that makes the calls of a plan in their order, and stops early only with an error.
unfoldable pub Follows : {E : Env} {A : Type 0} → List RuntimeCall → Action E A → Type 0
Follows {E} plan m =
    (w : World E)
    → (done : List RuntimeCall) × (left : List RuntimeCall) × (plan ≡ done ++ left)
      × (calls (m w).1.trace ≡ calls w.trace ++ done)
      × ((left ≡ []) ⊎ ((e : Error) × ((m w).0 ≡ err e)))

-- Code that makes no such call.
abbrev pub IsSilent : {E : Env} {A : Type 0} → M E A → Type 0
IsSilent {E} m = (w : World E) → calls (m w).1.trace ≡ calls w.trace

pub IsSilent-Follows : {E : Env} {A : Type 0} → (m : Action E A) → IsSilent m → Follows [] m
unfolding Follows
IsSilent-Follows m h w = ([], [], refl, h w ∙ sym (append-nil (calls w.trace)), inl refl)

module _ {E : Env} {A B : Type 0} where
  -- One plan after the other.
  pub Follows-bind :
      (p q : List RuntimeCall) (m : Action E A) (f : A → Action E B)
      → Follows p m
      → ((a : A) (w : World E) → (m w).0 ≡ ok a → Follows q (f a))
      → Follows (p ++ q) (m >>= f)
  unfolding Follows
  Follows-bind p q m f hm hf w =
      let w₁ : World E = (m w).1 in
      let (done, left, split, made, end) = hm w in
      elim (Result-cases (m w).0) [
        | inr (e, r) ↦ (
          done,
          left ++ q,
          ap (λ l. l ++ q) split ∙ append_assoc done left q,
          ground (arith, made),
          inr (e, ground (arith)),
        )
        | inl (a, r) ↦
            let (done', left', split', made', end') = hf a w r w₁ in
            let full : left ≡ [] = elim end [ inl x ↦ x | inr (e, x) ↦ absurd (ground (arith)) ] in
            let whole : p ≡ done = split ∙ ap (λ l. done ++ l) full ∙ append-nil done in
            (
              done ++ done',
              left',
              ap (λ l. l ++ q) whole
                  ∙ ap (λ l. done ++ l) split'
                  ∙ sym (append_assoc done done' left'),
              ground (arith, made, made', append_assoc (calls w.trace) done done'),
              elim end' [ inl x ↦ inl x | inr (e, x) ↦ inr (e, ground (arith)) ],
            )
      ]

-- A call of a library, with what is made of its error.
pub Follows-library :
    (E : Env) (c : RuntimeCall) (f : E.State → Result (Unit {0}) × E.State)
    → Follows (masked c ∷ []) (library E c f)
unfolding Follows calls
Follows-library E c f w = (masked c ∷ [], [], refl, refl, inl refl)

pub Follows-map_err :
    {E : Env} {A : Type 0} (plan : List RuntimeCall) (f : Error → Error) (m : Action E A)
    → Follows plan m
    → Follows plan (map_err f m)
unfolding Follows
Follows-map_err plan f m h w =
    let (done, left, split, made, end) = h w in
    (
      done,
      left,
      split,
      ground (arith, made),
      elim end [ inl x ↦ inl x | inr (e, x) ↦ inr (f e, ground (arith)) ],
    )
