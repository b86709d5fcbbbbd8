-- ===== src/Common/Parsing.antt =====
-- Reading texts, as Rust's standard library does: `lines`, `trim`, `split_whitespace` and `parse`
-- of an unsigned number.
use Prim.Native.Nat.{ℕ, ◌+◌, ◌*◌, ◌-◌}
use Prim.Native.Char.{Char, code}
use Prim.Native.String.{String}
use mathlib.Core.Path.{◌≡◌, refl}
use mathlib.Core.Bool.{Bool, true, false, ◌&&◌, ◌||◌}
use mathlib.Core.Option.{Option, none, some}
use mathlib.Core.List.{List, [], ◌∷◌}
use gpu_dead_node_detector.Common.Tests.{ltb, leb, ◌==◌, if◌then◌else◌}

-- `char::is_whitespace`
is_space : ℕ → Bool
is_space c =
    (leb 9 c && leb c 13)
    || c == 32
    || c == 133
    || c == 160
    || c == 5760
    || (leb 8192 c && leb c 8202)
    || c == 8232
    || c == 8233
    || c == 8239
    || c == 8287
    || c == 12288

is_blank : String → Bool
unfolding is_space
is_blank String.[] = true
is_blank (String.◌∷◌ c s) = is_space (code c) && is_blank s

trim_end : String → String
unfolding is_blank
trim_end String.[] = String.[]
trim_end (String.◌∷◌ c s) =
    let rest = trim_end s in if is_blank (String.◌∷◌ c s) then String.[] else String.◌∷◌ c rest

trim_start : String → String
unfolding is_space
trim_start String.[] = String.[]
trim_start (String.◌∷◌ c s) =
    let rest = trim_start s in if is_space (code c) then rest else String.◌∷◌ c s

-- `text.trim()`
unfoldable pub trim : String → String
unfolding trim_end trim_start
trim s = trim_start (trim_end s)

abbrev onto : Char → List String → List String
onto c [] = String.◌∷◌ c String.[] ∷ []
onto c (w ∷ ws) = String.◌∷◌ c w ∷ ws

abbrev drop_return : String → String
drop_return String.[] = String.[]
drop_return (String.◌∷◌ c String.[]) = if code c == 13 then String.[] else String.◌∷◌ c String.[]
drop_return (String.◌∷◌ c (String.◌∷◌ d s)) = String.◌∷◌ c (drop_return (String.◌∷◌ d s))

-- The pieces between separators.
split_at : (ℕ → Bool) → String → List String
split_at is_sep String.[] = String.[] ∷ []
split_at is_sep (String.◌∷◌ c s) =
    let rest = split_at is_sep s in if is_sep (code c) then String.[] ∷ rest else onto c rest

-- A piece that a line feed ends loses its carriage return; the last piece is dropped where empty.
finish_lines : List String → List String
finish_lines [] = []
finish_lines (String.[] ∷ []) = []
finish_lines ((String.◌∷◌ c s) ∷ []) = String.◌∷◌ c s ∷ []
finish_lines (w ∷ v ∷ ws) = drop_return w ∷ finish_lines (v ∷ ws)

-- `text.lines()`
unfoldable pub lines : String → List String
unfolding split_at finish_lines
lines s = finish_lines (split_at (λ c. c == 10) s)

drop_empty : List String → List String
drop_empty [] = []
drop_empty (String.[] ∷ ws) = drop_empty ws
drop_empty ((String.◌∷◌ c s) ∷ ws) = String.◌∷◌ c s ∷ drop_empty ws

-- `text.split_whitespace()`
unfoldable pub split_whitespace : String → List String
unfolding is_space split_at drop_empty
split_whitespace s = drop_empty (split_at is_space s)

digits_value : ℕ → ℕ → String → Option ℕ
digits_value limit n String.[] = some n
digits_value limit n (String.◌∷◌ c s) =
    let n' = n * 10 + (code c - 48) in
    if leb 48 (code c) && leb (code c) 57 && ltb n' limit then digits_value limit n' s else none

-- `text.parse().ok()` of an unsigned number below `limit`.
unfoldable pub parse_number : ℕ → String → Option ℕ
unfolding digits_value
parse_number limit String.[] = none
parse_number limit (String.◌∷◌ c String.[]) = digits_value limit 0 (String.◌∷◌ c String.[])
parse_number limit (String.◌∷◌ c (String.◌∷◌ d s)) =
    if code c == 43
    then digits_value limit 0 (String.◌∷◌ d s)
    else digits_value limit 0 (String.◌∷◌ c (String.◌∷◌ d s))

-- `iter.filter_map(f).collect()`
abbrev pub collect_some {ℓ κ} : {A : Type ℓ} {B : Type κ} → (A → Option B) → List A → List B
collect_some f [] = []
collect_some f (x ∷ xs) = elim (f x) [ none ↦ collect_some f xs | some y ↦ y ∷ collect_some f xs ]

pids_test :
    collect_some (λ l. parse_number 4294967296 (trim l)) (lines " 12\r\n\nx\n+7 \n99999999999")
    ≡ 12 ∷ 7 ∷ []
unfolding parse_number trim lines
pids_test = refl

words_test : split_whitespace "17 (nvidia)  D 1" ≡ "17" ∷ "(nvidia)" ∷ "D" ∷ "1" ∷ []
unfolding split_whitespace
words_test = refl

upper : ℕ → ℕ
upper c = if leb 97 c && leb c 122 then c - 32 else c

-- `text.to_uppercase() == other`, for the letters of ASCII.
unfoldable pub uppercase_is : String → String → Bool
unfolding upper
uppercase_is String.[] String.[] = true
uppercase_is String.[] (String.◌∷◌ d t) = false
uppercase_is (String.◌∷◌ c s) String.[] = false
uppercase_is (String.◌∷◌ c s) (String.◌∷◌ d t) = upper (code c) == code d && uppercase_is s t
