-- ===== src/Device/AscendLogs.antt =====
-- src/rust/gdnd/gdnd-core/src/device/ascend.rs: the errors in the logs of an NPU.
pub mod Tidy
use gpu_dead_node_detector.Common.{
  some, none, ok, err, ◌∷◌, ◌*◌, ◌-◌, ◌==◌, String, ℕ, List, Bool, Effect, Option, [], map,
  if◌then◌else◌, Result, ◌++◌, concat, true, get_or, leb, decimal, not, parse_number, ltb, u32_mod,
  ◌&&◌,
}
use gpu_dead_node_detector.Device.AscendCode.{from_code, description}
use gpu_dead_node_detector.Device.System.{Regex, System, Match}
use gpu_dead_node_detector.Device.{XidError, IoError}

-- An entry of the log directory: its time of modification is in nanoseconds, `none` where it cannot
-- be read.
pub record LogEntry : Type 0 where
  pub path : String
  pub is_file : Bool
  pub modified : Option ℕ

-- `read_dir`, with the entries up to the first that cannot be read.
pub record LogFiles (W : Type 0) : Type 0 where
  pub read_dir : String → Effect W IoError (List LogEntry)

abbrev pub day : ℕ
day = 86400 * 1000000000

-- Not older than a day; a time in the future counts as old, since its age is `Duration::MAX`.
unfoldable pub is_recent : ℕ → Option ℕ → Bool
is_recent now none = true
is_recent now (some t) = not (ltb now t) && not (ltb day (now - t))

-- The patterns with their codes; the code 0 stands for the one in the match.
abbrev pub error_patterns : List (String × ℕ)
error_patterns =
    ("\\[ERROR\\].*HBM.*error", 1001)
    ∷ ("\\[ERROR\\].*AICore.*hang", 1002)
    ∷ ("\\[ERROR\\].*temperature", 1003)
    ∷ ("\\[ERROR\\].*PCIe.*link", 1005)
    ∷ ("\\[ERROR\\].*device.*lost", 1007)
    ∷ ("\\[ERROR\\].*ECC.*uncorrectable", 1008)
    ∷ ("ErrCode=(\\d+)", 0)
    ∷ []

unfoldable pub matched_code : ℕ → Match → ℕ
matched_code default_code cap =
    if default_code == 0 then get_or (parse_number u32_mod (cap 1)) 9999 else default_code

unfoldable pub log_error : ℕ → ℕ → ℕ → XidError
log_error now device_index c = record {
  code = c;
  message = description (from_code c);
  timestamp = now;
  device_index = device_index;
}

-- The errors in the text of one file.
unfoldable pub errors_in : Regex → ℕ → ℕ → String → List (String × ℕ) → List XidError
unfolding log_error matched_code
errors_in regex now device_index content [] = []
errors_in regex now device_index content ((pattern, default_code) ∷ rest) =
    map (λ cap. log_error now device_index (matched_code default_code cap))
      (regex.captures_iter pattern content)
    ++ errors_in regex now device_index content rest

-- `sort_by_key(|e| e.code)`, which is stable, by insertion.
unfoldable pub insert_by_code : XidError → List XidError → List XidError
insert_by_code x [] = x ∷ []
insert_by_code x (y ∷ ys) = if leb x.code y.code then x ∷ y ∷ ys else y ∷ insert_by_code x ys

unfoldable pub sort_by_code : List XidError → List XidError
unfolding insert_by_code
sort_by_code [] = []
sort_by_code (x ∷ xs) = insert_by_code x (sort_by_code xs)

-- `dedup_by_key(|e| e.code)`: the first of each run stays.
unfoldable pub dedup_from : XidError → List XidError → List XidError
dedup_from x [] = x ∷ []
dedup_from x (y ∷ ys) = if x.code == y.code then dedup_from x ys else x ∷ dedup_from y ys

unfoldable pub dedup_by_code : List XidError → List XidError
unfolding dedup_from
dedup_by_code [] = []
dedup_by_code (x ∷ xs) = dedup_from x xs

module _ {W : Type 0} (system : System W) (files : LogFiles W) (regex : Regex) where
  -- One round of the loop over the entries.
  unfoldable pub errors_of : ℕ → LogEntry → W → List XidError × W
  unfolding is_recent errors_in
  errors_of device_index entry w =
      if not entry.is_file
      then ([], w)
      else if not (is_recent (system.now w) entry.modified)
      then ([], w)
      else read_errors device_index (system.read_to_string entry.path w)
    where
      read_errors : ℕ → Result IoError String × W → List XidError × W
      read_errors device_index (ok content, v) =
          (errors_in regex (system.now v) device_index content error_patterns, v)
      read_errors device_index (err e, v) = ([], v)

  unfoldable pub errors_of_all : ℕ → List LogEntry → W → List XidError × W
  unfolding errors_of
  errors_of_all device_index [] w = ([], w)
  errors_of_all device_index (entry ∷ entries) w =
      let (found, v) = errors_of device_index entry w in
      let (rest, u) = errors_of_all device_index entries v in (found ++ rest, u)

  abbrev pub log_path : String → ℕ → String
  log_path log_dir device_index = concat (log_dir ∷ "/device-os-" ∷ decimal device_index ∷ [])

  -- What the loop has found, before it is sorted.
  unfoldable pub scan_logs : String → ℕ → W → List XidError × W
  unfolding errors_of_all
  scan_logs log_dir device_index w =
      let (exists, v) = system.path_exists (log_path log_dir device_index) w in
      if exists
      then scan_entries device_index (files.read_dir (log_path log_dir device_index) v)
      else ([], v)
    where
      scan_entries : ℕ → Result IoError (List LogEntry) × W → List XidError × W
      scan_entries device_index (ok entries, v) = errors_of_all device_index entries v
      scan_entries device_index (err e, v) = ([], v)

  unfoldable pub parse_device_logs : String → ℕ → W → List XidError × W
  unfolding scan_logs sort_by_code dedup_by_code
  parse_device_logs log_dir device_index w =
      let (errors, v) = scan_logs log_dir device_index w in (dedup_by_code (sort_by_code errors), v)
