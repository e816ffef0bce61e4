-- ===== src/Metrics/Gauges.antt =====
-- The gauge of counts (internal/metrics/metrics.go), and what the report of one kind makes of it.
use k8s_postgresql_operator.Prelude.{
  ℕ, zero, suc, String, ◌≡◌, refl, ◌∙◌, ◌&&◌, Option, none, some, List, [], ◌∷◌, ◌==◌, arith,
  eq_refl, Bool-cases, inl, inr, if◌then◌else◌,
}
use k8s_postgresql_operator.World.{Env, World, Effect, gauge}
use k8s_postgresql_operator.Metrics.{Listed, count_ids, set_infos, set_counts, report_items}
use k8s_postgresql_operator.Metrics.Counts.{
  occurrences, last_count, IsDistinct, last_count-count_ids,
}

-- What a call makes of the gauge `postgresql_operator_object_count` of a kind and an ID.
unfoldable pub gauge_after : String → String → Effect → Option ℕ → Option ℕ
gauge_after kind i (gauge name (k ∷ j ∷ []) n) before =
    if name == "postgresql_operator_object_count" && (k == kind && j == i) then some n else before
gauge_after kind i _ before = before

-- The value of this gauge: the latest that was set.
unfoldable pub object_count : String → String → List Effect → Option ℕ
unfolding gauge_after
object_count kind i [] = none
object_count kind i (e ∷ trace) = gauge_after kind i e (object_count kind i trace)

-- A gauge after a count of n: an ID that has no resource is not set.
unfoldable pub set_count : ℕ → Option ℕ → Option ℕ
set_count zero before = before
set_count (suc n) before = some (suc n)

module _ {E : Env} where
  object_count-set_infos :
      (kind i shown : String) (items : List Listed) (w : World E)
      → object_count kind i (set_infos shown items w).1.trace ≡ object_count kind i w.trace
  unfolding set_infos object_count
  object_count-set_infos kind i shown [] w = refl
  object_count-set_infos kind i shown (x ∷ items) w =
      object_count-set_infos kind i shown items (set_infos shown (x ∷ []) w).1

  object_count-set_counts :
      (kind i shown : String) (counts : List (String × ℕ)) (w : World E)
      → object_count kind i (set_counts shown counts w).1.trace ≡ (
          if shown == kind
          then last_count i counts (object_count kind i w.trace)
          else object_count kind i w.trace)
  unfolding set_counts object_count last_count
  object_count-set_counts kind i shown [] w = ground (arith, Bool-cases (shown == kind))
  object_count-set_counts kind i shown ((j, n) ∷ counts) w =
      let w₁ : World E = (set_counts shown ((j, n) ∷ []) w).1 in
      elim (Bool-cases (shown == kind)) [
        | inl e ↦ ground (
          arith,
          object_count-set_counts kind i shown counts w₁,
          eq_refl "postgresql_operator_object_count",
        )
        | inr e ↦ ground (arith, object_count-set_counts kind i shown counts w₁)
      ]

  pub object_count-report_items :
      (kind i shown : String) (items : List Listed) (w : World E)
      → object_count kind i (report_items shown items w).1.trace ≡ (
          if shown == kind
          then set_count (occurrences i items) (object_count kind i w.trace)
          else object_count kind i w.trace)
  unfolding report_items last_count IsDistinct set_count
  object_count-report_items kind i shown items w =
      let w₁ : World E = (set_infos shown items w).1 in
      ground (
        arith,
        object_count-set_infos kind i shown items w,
        object_count-set_counts kind i shown (count_ids items []) w₁,
        last_count-count_ids i items [] (object_count kind i w₁.trace) tt,
      )

  state-set_infos :
      (shown : String) (items : List Listed) (w : World E)
      → (set_infos shown items w).1.state ≡ w.state
  unfolding set_infos
  state-set_infos shown [] w = refl
  state-set_infos shown (x ∷ items) w = state-set_infos shown items (set_infos shown (x ∷ []) w).1

  state-set_counts :
      (shown : String) (counts : List (String × ℕ)) (w : World E)
      → (set_counts shown counts w).1.state ≡ w.state
  unfolding set_counts
  state-set_counts shown [] w = refl
  state-set_counts shown ((j, n) ∷ counts) w =
      state-set_counts shown counts (set_counts shown ((j, n) ∷ []) w).1

  pub state-report_items :
      (shown : String) (items : List Listed) (w : World E)
      → (report_items shown items w).1.state ≡ w.state
  unfolding report_items
  state-report_items shown items w =
      state-set_counts shown (count_ids items []) (set_infos shown items w).1
      ∙ state-set_infos shown items w
