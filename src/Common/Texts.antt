-- ===== src/Common/Texts.antt =====
-- Texts: numbers in decimal, `join`, and `contains`.
use Prim.Native.Nat.{ℕ, zero, suc, ◌/◌, ◌%◌, ◌^◌, ◌<◌}
use Prim.Native.String.{String, ◌++◌, len, find}
use mathlib.Core.Path.{◌≡◌, refl}
use mathlib.Core.Bool.{Bool}
use mathlib.Core.List.{List, [], ◌∷◌}
use native.Mathlib.Omega.{arith}
use gpu_dead_node_detector.Common.Tests.{ltb, leb, ◌==◌, if◌then◌else◌}

unfoldable pub digit : ℕ → String
digit zero = "0"
digit (suc zero) = "1"
digit (suc (suc zero)) = "2"
digit (suc (suc (suc zero))) = "3"
digit (suc (suc (suc (suc zero)))) = "4"
digit (suc (suc (suc (suc (suc zero))))) = "5"
digit (suc (suc (suc (suc (suc (suc zero)))))) = "6"
digit (suc (suc (suc (suc (suc (suc (suc zero))))))) = "7"
digit (suc (suc (suc (suc (suc (suc (suc (suc zero)))))))) = "8"
digit _ = "9"

-- The digits of `n` in base ten; fuel above `n` is enough.
unfoldable pub digits_of : ℕ → ℕ → String
unfolding digit
digits_of zero n = ""
digits_of (suc f) n =
    let rest = digits_of f (n / 10) in if ltb n 10 then digit n else rest ++ digit (n % 10)

-- `format!("{}", n)` and `n.to_string()`.
unfoldable pub decimal : ℕ → String
unfolding digits_of
decimal n = digits_of (suc n) n

-- Any fuel above the number gives the same digits.
digits_of_enough : (f g n : ℕ) → n < f → n < g → digits_of f n ≡ digits_of g n
unfolding digits_of
digits_of_enough zero g n hf hg = elim hf [ ]
digits_of_enough (suc f) zero n hf hg = elim hg [ ]
digits_of_enough (suc f) (suc g) n hf hg = ground (arith, digits_of_enough f g (n / 10))

pub digits_of-decimal : (f n : ℕ) → n < f → digits_of f n ≡ decimal n
unfolding decimal
digits_of-decimal f n h = digits_of_enough f (suc n) n h (omega arith)

-- `format!` puts its pieces together.
unfoldable pub concat : List String → String
concat [] = ""
concat (s ∷ rest) = s ++ concat rest

-- `texts.join(separator)`
unfoldable pub join : String → List String → String
join sep [] = ""
join sep (s ∷ []) = s
join sep (s ∷ t ∷ rest) = s ++ sep ++ join sep (t ∷ rest)

-- `text.contains(part)`: `find` answers with a place past the end where there is none.
abbrev pub has_part : String → String → Bool
has_part s t = leb (find s t) (len s)

-- A fraction of `width` digits with its trailing zeros left out.
fraction : ℕ → ℕ → String
unfolding digit
fraction zero n = ""
fraction (suc width) n =
    let rest = fraction width (n % 10 ^ width) in
    if n == 0 then "" else digit (n / 10 ^ width) ++ rest

with_fraction : ℕ → ℕ → ℕ → String → String
unfolding fraction decimal
with_fraction whole width rest suffix =
    if rest == 0
    then decimal whole ++ suffix
    else decimal whole ++ "." ++ fraction width rest ++ suffix

-- `format!("{:?}", duration)` of a number of nanoseconds.
unfoldable pub debug_duration : ℕ → String
unfolding with_fraction
debug_duration n =
    if leb 1000000000 n
    then with_fraction (n / 1000000000) 9 (n % 1000000000) "s"
    else if leb 1000000 n
    then with_fraction (n / 1000000) 6 (n % 1000000) "ms"
    else if leb 1000 n
    then with_fraction (n / 1000) 3 (n % 1000) "µs"
    else decimal n ++ "ns"

five_seconds : debug_duration 5000000000 ≡ "5s"
unfolding debug_duration
five_seconds = refl

part_of_a_second : debug_duration 1050000000 ≡ "1.05s"
unfolding debug_duration
part_of_a_second = refl
