-- ===== src/Metrics/Gauges.antt =====
-- The value that the program has set last for the status gauge under the labels of a device, which
-- is what a gauge shows.
use gpu_dead_node_detector.Common.{
  [], ◌∷◌, none, some, str_eq, eq_refl, get_or, decimal, String, Option, List, Bool, ℕ, ◌&&◌,
  if◌then◌else◌, ◌++◌, ◌≡◌,
}
use gpu_dead_node_detector.Metrics.{Update, gpu_status, set_gpu_status, status_value}
use gpu_dead_node_detector.Device.{DeviceId}
use gpu_dead_node_detector.Health.{HealthState}

-- The labels are those of the device.
unfoldable pub is_about : DeviceId → String → String → String → Bool
is_about d gpu uuid name =
    str_eq gpu (decimal d.index) && str_eq uuid (get_or d.uuid "") && str_eq name d.name

-- What the gauge shows after one update.
unfoldable pub set_by : DeviceId → Option ℕ → Update → Option ℕ
unfolding is_about
set_by d before (gpu_status gpu uuid name value) =
    if is_about d gpu uuid name then some value else before
set_by d before _ = before

-- The value under the labels of a device, from what is shown before the updates.
unfoldable pub shown_after : DeviceId → Option ℕ → List Update → Option ℕ
unfolding set_by
shown_after d before [] = before
shown_after d before (u ∷ updates) = shown_after d (set_by d before u) updates

abbrev pub shown_status : DeviceId → List Update → Option ℕ
shown_status d updates = shown_after d none updates

-- A status that has just been set is shown.
pub shown_after-set_gpu_status :
    (d : DeviceId) (before : Option ℕ) (updates : List Update) (state : HealthState)
    → shown_after d before (updates ++ set_gpu_status d state ∷ []) ≡ some (status_value state)
unfolding shown_after set_by set_gpu_status is_about
shown_after-set_gpu_status d before [] state =
    rw (eq_refl (decimal d.index), eq_refl (get_or d.uuid ""), eq_refl d.name)
shown_after-set_gpu_status d before (u ∷ updates) state =
    shown_after-set_gpu_status d (set_by d before u) updates state
