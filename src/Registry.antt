-- ===== src/Registry.antt =====
-- The link metrics by name: core/include/anthocnet/core/link_metric_registry.h and
-- core/src/link_metric_registry.cpp. A `std::string` is the list of its bytes.
use ant_hoc_net.Double.{Double}
use ant_hoc_net.Metric.{LinkMetric, classic_metric, energy_metric, sinr_metric}
use ant_hoc_net.Prelude.{
  Bool, List, Option, [], false, if◌then◌else◌, none, some, true, ℕ, ◌&&◌, ◌++◌, ◌==◌, ◌∷◌,
}

abbrev pub Name : Type 0
Name = List ℕ

-- "classic", "sinr" and "energy"
abbrev pub classic_name : Name
classic_name = 99 ∷ 108 ∷ 97 ∷ 115 ∷ 115 ∷ 105 ∷ 99 ∷ []

abbrev pub sinr_name : Name
sinr_name = 115 ∷ 105 ∷ 110 ∷ 114 ∷ []

abbrev pub energy_name : Name
energy_name = 101 ∷ 110 ∷ 101 ∷ 114 ∷ 103 ∷ 121 ∷ []

unfoldable pub same_name : Name → Name → Bool
same_name [] [] = true
same_name [] (c ∷ n) = false
same_name (b ∷ m) [] = false
same_name (b ∷ m) (c ∷ n) = b == c && same_name m n

module _ {W : Type 0} ⦃d : Double W⦄ where
  abbrev pub metric_table : List (Name × LinkMetric W)
  metric_table =
      (classic_name, classic_metric) ∷ (sinr_name, sinr_metric) ∷ (energy_name, energy_metric) ∷ []

  unfoldable pub find_in : List (Name × LinkMetric W) → Name → Option (LinkMetric W)
  find_in [] name = none
  find_in ((n, m) ∷ entries) name = if same_name name n then some m else find_in entries name

  -- `none` for an unknown name, and never the classic metric
  unfoldable pub find_metric : Name → Option (LinkMetric W)
  find_metric name = find_in metric_table name

  -- the names with ", " between them
  unfoldable pub join_names : List (Name × LinkMetric W) → Name
  join_names [] = []
  join_names ((n, m) ∷ entries) =
      let rest = join_names entries in n ++ (elim entries [ [] ↦ [] | e ∷ es ↦ 44 ∷ 32 ∷ rest ])
