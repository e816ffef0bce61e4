-- ===== src/Metrics/Counts.antt =====
-- The counts of the metrics collector (internal/metrics/collector.go): each ID has one entry, which
-- is the number of its resources.
use k8s_postgresql_operator.Prelude.{
  ℕ, zero, suc, ◌+◌, String, ◌≡◌, refl, true, false, Option, none, some, List, [], ◌∷◌, ◌==◌, arith,
  eq_iff, eq_refl, Bool-cases, Option-cases, inl, inr, All, if◌then◌else◌,
}
use k8s_postgresql_operator.Metrics.{Listed, count_id, count_ids}

-- The number of resources with an ID.
unfoldable pub occurrences : String → List Listed → ℕ
occurrences i [] = 0
occurrences i (x ∷ items) = let n = occurrences i items in if x.postgresql_id == i then suc n else n

-- The last entry of an ID, or what was before.
unfoldable pub last_count : String → List (String × ℕ) → Option ℕ → Option ℕ
last_count i [] before = before
last_count i ((k, n) ∷ counts) before = last_count i counts (if k == i then some n else before)

abbrev pub or_zero : Option ℕ → ℕ
or_zero none = 0
or_zero (some n) = n

-- n more than a count, and the earlier value where both are none.
abbrev pub total : ℕ → Option ℕ → Option ℕ → Option ℕ
total zero none before = before
total zero (some m) before = some m
total (suc n) found before = some (suc n + or_zero found)

unfoldable pub IsFresh : String → List (String × ℕ) → Type 0
IsFresh k counts = All (λ (e : String × ℕ). (e.0 == k) ≡ false) counts

unfoldable pub IsDistinct : List (String × ℕ) → Type 0
IsDistinct [] = Unit
IsDistinct ((k, n) ∷ counts) = IsFresh k counts × IsDistinct counts

eq_comm : (s t : String) → (t == s) ≡ false → (s == t) ≡ false
eq_comm s t h = ground (arith, eq_iff s t, eq_iff t s)

IsFresh-count_id :
    (k j : String) (counts : List (String × ℕ))
    → (j == k) ≡ false
    → IsFresh k counts
    → IsFresh k (count_id j counts)
unfolding IsFresh count_id
IsFresh-count_id k j [] h f = (h, tt)
IsFresh-count_id k j ((i, n) ∷ counts) h f =
    let rest : IsFresh k (count_id j counts) = IsFresh-count_id k j counts h f.1 in
    elim (Bool-cases (i == j)) [ inl e ↦ ground (arith) | inr e ↦ ground (arith) ]

IsDistinct-count_id :
    (j : String) (counts : List (String × ℕ)) → IsDistinct counts → IsDistinct (count_id j counts)
unfolding IsDistinct IsFresh count_id
IsDistinct-count_id j [] d = (tt, tt)
IsDistinct-count_id j ((i, n) ∷ counts) d =
    let rest : IsDistinct (count_id j counts) = IsDistinct-count_id j counts d.1 in
    elim (Bool-cases (i == j)) [
      | inl e ↦ ground (arith)
      | inr e ↦ ground (arith, IsFresh-count_id i j counts (eq_comm j i e) d.0)
    ]

last_count-of_fresh :
    (i k : String) (counts : List (String × ℕ)) (before : Option ℕ)
    → (k == i) ≡ true
    → IsFresh k counts
    → last_count i counts before ≡ before
unfolding IsFresh last_count
last_count-of_fresh i k [] before h f = refl
last_count-of_fresh i k ((j, n) ∷ counts) before h f =
    ground (arith, eq_iff k i, last_count-of_fresh i k counts before h f.1)

last_count-before :
    (i : String) (counts : List (String × ℕ)) (before : Option ℕ)
    → last_count i counts before ≡ total 0 (last_count i counts none) before
unfolding last_count
last_count-before i [] before = refl
last_count-before i ((k, n) ∷ counts) before = elim (Bool-cases (k == i)) [
  | inl e ↦
      ground (arith, last_count-before i counts (some n), Option-cases (last_count i counts none))
  | inr e ↦ ground (arith, last_count-before i counts before)
]

last_count-count_id :
    (i j : String) (counts : List (String × ℕ)) (before : Option ℕ)
    → IsDistinct counts
    → last_count i (count_id j counts) before ≡ (
        if j == i
        then some (suc (or_zero (last_count i counts none)))
        else last_count i counts before)
unfolding IsDistinct last_count count_id
last_count-count_id i j [] before d = refl
last_count-count_id i j ((k, n) ∷ counts) before d = elim (Bool-cases (k == j)) [
  | inl e ↦ elim (Bool-cases (k == i)) [
    | inl e' ↦ ground (
      arith,
      eq_iff k j,
      eq_iff k i,
      eq_refl i,
      last_count-of_fresh i k counts (some (suc n)) e' d.0,
      last_count-of_fresh i k counts (some n) e' d.0,
    )
    | inr e' ↦ ground (arith, eq_iff k j)
  ]
  | inr e ↦ elim (Bool-cases (k == i)) [
    | inl e' ↦ ground (arith, eq_iff k i, eq_comm j k, last_count-count_id i j counts (some n) d.1)
    | inr e' ↦ ground (arith, last_count-count_id i j counts before d.1)
  ]
]

-- The last count of an ID is the number of its resources more than the count before.
pub last_count-count_ids :
    (i : String) (items : List Listed) (counts : List (String × ℕ)) (before : Option ℕ)
    → IsDistinct counts
    → last_count i (count_ids items counts) before
      ≡ total (occurrences i items) (last_count i counts none) before
unfolding count_ids occurrences
last_count-count_ids i [] counts before d = last_count-before i counts before
last_count-count_ids i (x ∷ items) counts before d =
    let next = count_id x.postgresql_id counts in
    let rest =
      last_count-count_ids i items next before (IsDistinct-count_id x.postgresql_id counts d) in
    elim (Bool-cases (x.postgresql_id == i)) [
      | inl e ↦ ground (
        arith,
        rest,
        last_count-count_id i x.postgresql_id counts none d,
        Option-cases (last_count i counts none),
      )
      | inr e ↦ ground (arith, rest, last_count-count_id i x.postgresql_id counts none d)
    ]
