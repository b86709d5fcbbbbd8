-- ===== src/Device/AscendLogs/Tidy.antt =====
-- The errors that are reported from the logs: sorted, and one for each code.
use gpu_dead_node_detector.Common.{
  ◌∷◌, ◌==◌, ltb, leb, List, ℕ, ◌≡◌, map, Bool, true, contains, ◌&&◌, arith, ◌||◌, [], refl, ◌≤◌,
  ◌<◌, String, ◌∙◌,
}
use gpu_dead_node_detector.Device.AscendLogs.{
  dedup_from, sort_by_code, insert_by_code, dedup_by_code, parse_device_logs, LogFiles, scan_logs,
}
use gpu_dead_node_detector.Device.{XidError}
use gpu_dead_node_detector.Device.System.{System, Regex}

abbrev pub codes : List XidError → List ℕ
codes xs = map (λ x. x.code) xs

-- Each number is less than the next, from a first one on; and the same with `≤`.
abbrev pub ascends_from : ℕ → List ℕ → Bool
ascends_from a [] = true
ascends_from a (b ∷ rest) = ltb a b && ascends_from b rest

abbrev pub is_ascending : List ℕ → Bool
is_ascending [] = true
is_ascending (a ∷ rest) = ascends_from a rest

abbrev sorted_from : ℕ → List ℕ → Bool
sorted_from a [] = true
sorted_from a (b ∷ rest) = leb a b && sorted_from b rest

abbrev is_sorted : List ℕ → Bool
is_sorted [] = true
is_sorted (a ∷ rest) = sorted_from a rest

sorted_from-insert :
    (a : ℕ) (x : XidError) (ys : List XidError)
    → a ≤ x.code
    → sorted_from a (codes ys) ≡ true
    → sorted_from a (codes (insert_by_code x ys)) ≡ true
unfolding insert_by_code
sorted_from-insert a x [] le h = ground arith
sorted_from-insert a x (y ∷ ys) le h = ground (arith, sorted_from-insert y.code x ys)

is_sorted-insert :
    (x : XidError) (ys : List XidError)
    → is_sorted (codes ys) ≡ true
    → is_sorted (codes (insert_by_code x ys)) ≡ true
unfolding insert_by_code
is_sorted-insert x [] h = refl
is_sorted-insert x (y ∷ ys) h = ground (arith, sorted_from-insert y.code x ys)

is_sorted-sort : (xs : List XidError) → is_sorted (codes (sort_by_code xs)) ≡ true
unfolding sort_by_code
is_sorted-sort [] = refl
is_sorted-sort (x ∷ xs) = is_sorted-insert x (sort_by_code xs) (is_sorted-sort xs)

sorted_from_weaker :
    (a b : ℕ) (rest : List ℕ) → a ≤ b → sorted_from b rest ≡ true → sorted_from a rest ≡ true
sorted_from_weaker a b [] le h = refl
sorted_from_weaker a b (c ∷ rest) le h = ground arith

contains-insert :
    (x : XidError) (ys : List XidError) (c : ℕ)
    → contains (codes (insert_by_code x ys)) c ≡ (x.code == c || contains (codes ys) c)
unfolding insert_by_code
contains-insert x [] c = refl
contains-insert x (y ∷ ys) c = ground (arith, contains-insert x ys c)

contains-sort :
    (xs : List XidError) (c : ℕ) → contains (codes (sort_by_code xs)) c ≡ contains (codes xs) c
unfolding sort_by_code
contains-sort [] c = refl
contains-sort (x ∷ xs) c = ground (arith, contains-insert x (sort_by_code xs) c, contains-sort xs c)

contains-dedup_from :
    (x : XidError) (ys : List XidError) (c : ℕ)
    → contains (codes (dedup_from x ys)) c ≡ contains (codes (x ∷ ys)) c
unfolding dedup_from
contains-dedup_from x [] c = refl
contains-dedup_from x (y ∷ ys) c =
    ground (arith, contains-dedup_from x ys c, contains-dedup_from y ys c)

-- The first of a run stays, so what is left begins with a code above every smaller one.
ascends_from-dedup_from :
    (a : ℕ) (x : XidError) (ys : List XidError)
    → a < x.code
    → sorted_from x.code (codes ys) ≡ true
    → ascends_from a (codes (dedup_from x ys)) ≡ true
unfolding dedup_from
ascends_from-dedup_from a x [] lt h = ground arith
ascends_from-dedup_from a x (y ∷ ys) lt h = ground (
  arith,
  ascends_from-dedup_from a x ys lt,
  ascends_from-dedup_from x.code y ys,
  sorted_from_weaker x.code y.code (codes ys),
)

is_ascending-dedup_from :
    (x : XidError) (ys : List XidError)
    → sorted_from x.code (codes ys) ≡ true
    → is_ascending (codes (dedup_from x ys)) ≡ true
unfolding dedup_from
is_ascending-dedup_from x [] h = refl
is_ascending-dedup_from x (y ∷ ys) h = ground (
  arith,
  is_ascending-dedup_from x ys,
  ascends_from-dedup_from x.code y ys,
  sorted_from_weaker x.code y.code (codes ys),
)

is_ascending-dedup :
    (xs : List XidError)
    → is_sorted (codes xs) ≡ true
    → is_ascending (codes (dedup_by_code xs)) ≡ true
unfolding dedup_by_code
is_ascending-dedup [] h = refl
is_ascending-dedup (x ∷ xs) h = is_ascending-dedup_from x xs h

contains-dedup :
    (xs : List XidError) (c : ℕ) → contains (codes (dedup_by_code xs)) c ≡ contains (codes xs) c
unfolding dedup_by_code
contains-dedup [] c = refl
contains-dedup (x ∷ xs) c = contains-dedup_from x xs c

-- The errors that `parse_device_logs` reports have ascending codes, so one error for each code, and
-- their codes are those of the errors that the scan of the files has found, none more and none less.
pub parse_device_logs_lem :
    {W : Type 0} (system : System W) (files : LogFiles W) (regex : Regex) (log_dir : String)
    (device_index : ℕ) (w : W)
    → let found = (scan_logs system files regex log_dir device_index w).0 in
      let reported = (parse_device_logs system files regex log_dir device_index w).0 in
      (is_ascending (codes reported) ≡ true)
      × ((c : ℕ) → contains (codes reported) c ≡ contains (codes found) c)
unfolding parse_device_logs
parse_device_logs_lem system files regex log_dir device_index w =
    let found = (scan_logs system files regex log_dir device_index w).0 in
    (
      is_ascending-dedup (sort_by_code found) (is_sorted-sort found),
      λ c. contains-dedup (sort_by_code found) c ∙ contains-sort found c,
    )
