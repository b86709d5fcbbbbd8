-- ===== src/Main/Serving/Response.antt =====
-- What a client reads from a response of the metrics server.
use text.Mathlib.TextPositions.{slice_all, slice-append_right}
use text.Mathlib.TextLemmas.{append_assoc, append-nil}
use Prim.Native.Char.{Char}
use text.Mathlib.TextLemmas.{cons-append, nil-append}
use gpu_dead_node_detector.Common.{
  digit, zero, suc, ◌<◌, false, true, digits_of, Bool-cases, ltb, inl, inr, ltb→lt, ◌/◌, ◌%◌,
  decimal, concat, sym,
}
use Prim.Native.String.{len, slice, ◌++◌}
use Prim.Native.Char.{code}
use mathlib.Core.Path.{◌∙◌}
use gpu_dead_node_detector.Common.{
  String, Option, none, some, ℕ, ◌≡◌, refl, ap, arith, if◌then◌else◌, leb, ◌==◌, ◌&&◌, ◌+◌, ◌-◌,
  ◌*◌,
}
use gpu_dead_node_detector.Main.Serving.{metrics_response}

-- The text behind a given beginning.
unfoldable pub stripped : String → String → Option String
stripped String.[] s = some s
stripped (String.◌∷◌ c p) String.[] = none
stripped (String.◌∷◌ c p) (String.◌∷◌ d s) =
    let rest = stripped p s in if code c == code d then rest else none

-- A number in decimal, and the text behind it.
unfoldable pub read_digits : ℕ → String → ℕ × String
read_digits n String.[] = (n, String.[])
read_digits n (String.◌∷◌ c s) =
    let rest = read_digits (n * 10 + (code c - 48)) s in
    if leb 48 (code c) && leb (code c) 57 then rest else (n, String.◌∷◌ c s)

stripped-append : (p s : String) → stripped p (p ++ s) ≡ some s
unfolding stripped
stripped-append String.[] s = ap some (nil-append s)
stripped-append (String.◌∷◌ c p) s = ground (arith, cons-append c p s, stripped-append p s)

-- A text that begins with no digit.
abbrev IsEnd : String → Type 0
IsEnd String.[] = Unit
IsEnd (String.◌∷◌ c s) = (leb 48 (code c) && leb (code c) 57) ≡ false

read_digits-end : (n : ℕ) (s : String) → IsEnd s → read_digits n s ≡ (n, s)
unfolding read_digits
read_digits-end n String.[] e = refl
read_digits-end n (String.◌∷◌ c s) e = rw e refl

-- The character of a digit.
digit_char : (d : ℕ) → d < 10 → (c : Char) × (digit d ≡ String.◌∷◌ c String.[]) × (code c ≡ 48 + d)
unfolding digit
digit_char zero h = ("0", refl, refl)
digit_char (suc zero) h = ("1", refl, refl)
digit_char (suc (suc zero)) h = ("2", refl, refl)
digit_char (suc (suc (suc zero))) h = ("3", refl, refl)
digit_char (suc (suc (suc (suc zero)))) h = ("4", refl, refl)
digit_char (suc (suc (suc (suc (suc zero))))) h = ("5", refl, refl)
digit_char (suc (suc (suc (suc (suc (suc zero)))))) h = ("6", refl, refl)
digit_char (suc (suc (suc (suc (suc (suc (suc zero))))))) h = ("7", refl, refl)
digit_char (suc (suc (suc (suc (suc (suc (suc (suc zero)))))))) h = ("8", refl, refl)
digit_char (suc (suc (suc (suc (suc (suc (suc (suc (suc zero))))))))) h = ("9", refl, refl)
digit_char (suc (suc (suc (suc (suc (suc (suc (suc (suc (suc d)))))))))) h =
    absurd (omega (arith, h))

read_digits-char :
    (acc : ℕ) (c : Char) (s : String)
    → (leb 48 (code c) && leb (code c) 57) ≡ true
    → read_digits acc (String.◌∷◌ c String.[] ++ s) ≡ read_digits (acc * 10 + (code c - 48)) s
unfolding read_digits
read_digits-char acc c s is_digit =
    ap (read_digits acc) (cons-append c String.[] s ∙ ap (String.◌∷◌ c) (nil-append s))
    ∙ rw is_digit refl

read_digits-digit :
    (acc d : ℕ) (s : String)
    → d < 10
    → read_digits acc (digit d ++ s) ≡ read_digits (acc * 10 + d) s
read_digits-digit acc d s h =
    let (c, text, number) = digit_char d h in
    let is_digit : (leb 48 (code c) && leb (code c) 57) ≡ true = ground (arith, number, h) in
    let value : acc * 10 + (code c - 48) ≡ acc * 10 + d = omega (arith, number) in
    ap (λ t. read_digits acc (t ++ s)) text
    ∙ read_digits-char acc c s is_digit
    ∙ ap (λ n. read_digits n s) value

-- Reading a printed number.
read_digits-digits_of :
    (f n : ℕ) (s : String) → n < f → read_digits 0 (digits_of f n ++ s) ≡ read_digits n s
unfolding digits_of
read_digits-digits_of zero n s h = elim h [ ]
read_digits-digits_of (suc f) n s h = elim (Bool-cases (ltb n 10)) [
  | inl small ↦
      let value : 0 * 10 + n ≡ n = omega arith in
      rw small (read_digits-digit 0 n s (ltb→lt n 10 small) ∙ ap (λ m. read_digits m s) value)
  | inr large ↦
      let before : n / 10 < f = ground (arith, h, large) in
      let digit_below : n % 10 < 10 = omega arith in
      let value : n / 10 * 10 + n % 10 ≡ n = omega arith in
      rw large (
        ap (read_digits 0) (append_assoc (digits_of f (n / 10)) (digit (n % 10)) s)
        ∙ read_digits-digits_of f (n / 10) (digit (n % 10) ++ s) before
        ∙ read_digits-digit (n / 10) (n % 10) s digit_below
        ∙ ap (λ m. read_digits m s) value)
]

read_digits-decimal : (n : ℕ) (s : String) → IsEnd s → read_digits 0 (decimal n ++ s) ≡ (n, s)
unfolding decimal
read_digits-decimal n s e = read_digits-digits_of (suc n) n s (omega arith) ∙ read_digits-end n s e

abbrev head : String
head = "HTTP/1.1 200 OK\r\nContent-Type: text/plain; charset=utf-8\r\nContent-Length: "

-- Behind the head: the first so many bytes, and what is left.
abbrev taken : ℕ → String → Option (String × String)
taken length body =
    if leb length (len body) then some (slice body 0 length, slice body length (len body)) else none

abbrev with_body : ℕ → Option String → Option (String × String)
with_body length none = none
with_body length (some body) = taken length body

abbrev sized : ℕ × String → Option (String × String)
sized (length, rest) = with_body length (stripped "\r\n\r\n" rest)

abbrev behind_head : Option String → Option (String × String)
behind_head none = none
behind_head (some rest) = sized (read_digits 0 rest)

-- A client of the server: the head of the response, its length in bytes, an empty line, and then so
-- many bytes.
unfoldable pub read_response : String → Option (String × String)
read_response response = behind_head (stripped head response)

taken_all : (text : String) → taken (len text) text ≡ some (text, "")
taken_all text =
    let none_over : leb (len text) (len text) ≡ true = ground arith in
    let no_more : len text + 0 ≡ len text = omega arith in
    let left : slice text (len text) (len text) ≡ "" =
      ap (λ n. slice text (len text) n) (sym no_more)
      ∙ ap (λ t. slice t (len text) (len text + 0)) (sym (append-nil text))
      ∙ slice-append_right text "" in
    rw (none_over, slice_all text, left) refl

IsEnd-blank : (text : String) → IsEnd ("\r\n\r\n" ++ text)
IsEnd-blank text = rw (cons-append "\r" "\n\r\n" text) refl

-- A client that reads the length from the head of the response and then so many bytes has read the
-- metrics, whatever characters they hold, and nothing is left.
pub read_response-metrics_response :
    (metrics_output : String)
    → read_response (metrics_response metrics_output) ≡ some (metrics_output, "")
unfolding read_response metrics_response concat
read_response-metrics_response text =
    let rest = "\r\n\r\n" ++ text in
    ap (λ t. behind_head (stripped head (head ++ (decimal (len text) ++ ("\r\n\r\n" ++ t)))))
      (append-nil text)
    ∙ ap behind_head (stripped-append head (decimal (len text) ++ rest))
    ∙ ap sized (read_digits-decimal (len text) rest (IsEnd-blank text))
    ∙ ap (with_body (len text)) (stripped-append "\r\n\r\n" text)
    ∙ taken_all text
