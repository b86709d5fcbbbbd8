-- ===== src/Metrics/Labels.antt =====
-- Every update names the labels of its metric, and no two metrics share a name.
use gpu_dead_node_detector.Metrics.{
  gpu_count, gpu_status, gpu_temperature, gpu_utilization, gpu_memory_used, check_duration,
  check_failure, isolation_action, Update, registered, Metric, gpu_count_gauge, gpu_status_vec,
  gpu_temperature_vec, gpu_utilization_vec, gpu_memory_used_vec, check_duration_vec,
  check_failures_vec, isolation_actions_vec,
}
use gpu_dead_node_detector.Common.{
  [], ◌∷◌, refl, List, String, length, ◌≡◌, any, Bool, true, str_eq, not, ◌&&◌,
}

-- The metric that an update is of.
abbrev metric_of : Update → Metric
metric_of (gpu_count n) = gpu_count_gauge
metric_of (gpu_status gpu uuid name value) = gpu_status_vec
metric_of (gpu_temperature gpu value) = gpu_temperature_vec
metric_of (gpu_utilization gpu value) = gpu_utilization_vec
metric_of (gpu_memory_used gpu value) = gpu_memory_used_vec
metric_of (check_duration level gpu value) = check_duration_vec
metric_of (check_failure level gpu reason) = check_failures_vec
metric_of (isolation_action action) = isolation_actions_vec

-- The values that the update gives for the labels, in their order.
abbrev label_values : Update → List String
label_values (gpu_count n) = []
label_values (gpu_status gpu uuid name value) = gpu ∷ uuid ∷ name ∷ []
label_values (gpu_temperature gpu value) = gpu ∷ []
label_values (gpu_utilization gpu value) = gpu ∷ []
label_values (gpu_memory_used gpu value) = gpu ∷ []
label_values (check_duration level gpu value) = level ∷ gpu ∷ []
label_values (check_failure level gpu reason) = level ∷ gpu ∷ reason ∷ []
label_values (isolation_action action) = action ∷ []

-- An update has a value for each label of its metric, and its metric is registered:
-- `with_label_values` never panics.
pub labels_fit :
    (u : Update)
    → (length (label_values u) ≡ length (metric_of u).labels)
      × (any (λ m. str_eq m.name (metric_of u).name) registered ≡ true)
labels_fit (gpu_count n) = (refl, refl)
labels_fit (gpu_status gpu uuid name value) = (refl, refl)
labels_fit (gpu_temperature gpu value) = (refl, refl)
labels_fit (gpu_utilization gpu value) = (refl, refl)
labels_fit (gpu_memory_used gpu value) = (refl, refl)
labels_fit (check_duration level gpu value) = (refl, refl)
labels_fit (check_failure level gpu reason) = (refl, refl)
labels_fit (isolation_action action) = (refl, refl)

-- No metric is registered under a name twice, which the registry refuses.
abbrev pub is_fresh : List Metric → Bool
is_fresh [] = true
is_fresh (m ∷ ms) = not (any (λ n. str_eq n.name m.name) ms) && is_fresh ms

registered_fresh : is_fresh registered ≡ true
registered_fresh = refl
