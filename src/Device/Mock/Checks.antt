-- ===== src/Device/Mock/Checks.antt =====
-- What the detectors say of the mock device.
use gpu_dead_node_detector.Detection.Passive.{detect, conclude, metrics_findings}
use gpu_dead_node_detector.Device.Mock.{mock_interface, with_device_count, mock_id}
use gpu_dead_node_detector.Common.{
  ℕ, ◌≡◌, arith, List, ◌<◌, u32_mod, ◌≤◌, ok, length-map, range, length-range,
}
use gpu_dead_node_detector.Device.{DeviceId}
use gpu_dead_node_detector.Detection.{l1_passive, pass}

-- The passive check of a mock device that was never touched passes for each of its devices, as long
-- as the threshold is at least 45 degrees.
pub mock_passes :
    {W : Type 0} (now : W → ℕ) (count threshold : ℕ) (fatal_xids : List ℕ) (d : DeviceId) (w : W)
    → count < u32_mod
    → d.index < count
    → 45 ≤ threshold
    → (detect
        (record {
          device = mock_interface now (with_device_count count);
          temperature_threshold = threshold;
          fatal_xids = fatal_xids;
        })
        d
        w).0
      ≡ ok (pass d l1_passive)
unfolding detect mock_interface with_device_count conclude metrics_findings
mock_passes now count threshold fatal_xids d w fits listed warm =
    ground (arith, length-map mock_id (range 0 count), length-range 0 count)
