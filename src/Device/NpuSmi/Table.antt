-- ===== src/Device/NpuSmi/Table.antt =====
-- The table that npu-smi prints, and what is read from it.
use gpu_dead_node_detector.Common.{
  none, some, ◌∷◌, String, List, ◌≡◌, lines, Option, ◌∙◌, [], ap, refl,
}
use gpu_dead_node_detector.Device.NpuSmi.{
  device_pattern, chip_pattern, devices_in, parse_device_list, npu_device, NpuDeviceInfo,
}
use gpu_dead_node_detector.Device.System.{Regex, Match}

-- A line that shows no device, or the two lines of a device with their matches.
pub data Row : Type 0 where
  noise : String → Row
  entry : String → String → Match → Option Match → Row

abbrev pub lines_of : List Row → List String
lines_of [] = []
lines_of (noise line ∷ rows) = line ∷ lines_of rows
lines_of (entry line chip cap bus ∷ rows) = line ∷ chip ∷ lines_of rows

abbrev pub devices_of : List Row → List NpuDeviceInfo
devices_of [] = []
devices_of (noise line ∷ rows) = devices_of rows
devices_of (entry line chip cap bus ∷ rows) = npu_device cap bus ∷ devices_of rows

-- The engine's matches are those of the rows.
abbrev pub IsTable : Regex → List Row → Type 0
IsTable regex [] = Unit
IsTable regex (noise line ∷ rows) = (regex.captures device_pattern line ≡ none) × IsTable regex rows
IsTable regex (entry line chip cap bus ∷ rows) =
    (regex.captures device_pattern line ≡ some cap)
    × (regex.captures chip_pattern chip ≡ bus)
    × IsTable regex rows

module _ (regex : Regex) where
  devices_in-noise :
      (line : String) (rest : List String)
      → regex.captures device_pattern line ≡ none
      → devices_in regex (line ∷ rest) ≡ devices_in regex rest
  unfolding devices_in
  devices_in-noise line [] e = rw (devices_in, e)
  devices_in-noise line (next ∷ rest) e = rw (devices_in, e)

  devices_in-lines_of :
      (rows : List Row) → IsTable regex rows → devices_in regex (lines_of rows) ≡ devices_of rows
  unfolding devices_in
  devices_in-lines_of [] t = refl
  devices_in-lines_of (noise line ∷ rows) (e, t) =
      devices_in-noise line (lines_of rows) e ∙ devices_in-lines_of rows t
  devices_in-lines_of (entry line chip cap bus ∷ rows) (e, f, t) =
      rw (e, f) (ap (◌∷◌ (npu_device cap bus)) (devices_in-lines_of rows t))

  -- From a table in which every device's line is followed by a line of its own, among any lines that
  -- show no device, `parse_device_list` reads all the devices, in their order and no others, with
  -- the bus of the second line where that matches.
  pub parse_device_list_lem :
      (output : String) (rows : List Row)
      → lines output ≡ lines_of rows
      → IsTable regex rows
      → parse_device_list regex output ≡ devices_of rows
  unfolding parse_device_list
  parse_device_list_lem output rows e t = rw e (devices_in-lines_of rows t)
