-- ===== src/Common/Effects.antt =====
-- Fallible code over an explicit world: what was done before an error stays done, so the world
-- comes back beside the error too. `?` is the bind, and a loop of fallible steps stops at the first
-- error.
use mathlib.Core.Path.{◌≡◌, refl}
use mathlib.Core.Bool.{Bool, true, false}
use mathlib.Core.Option.{Option, some, none}
use mathlib.Core.List.{List, [], ◌∷◌}
use mathlib.Core.Logic.{◌⊎◌, inl, inr}
use native.Mathlib.Omega.{arith}

pub data Result {ℓ κ} (E : Type ℓ) (A : Type κ) : Type (ℓ ⊔ κ) where
  ok : A → Result E A
  err : E → Result E A

abbrev pub Effect : Type 0 → Type 0 → Type 0 → Type 0
Effect W E A = W → Result E A × W

abbrev pub pure : {W E A : Type 0} → A → Effect W E A
pure a w = (ok a, w)

abbrev pub raise : {W E A : Type 0} → E → Effect W E A
raise e w = (err e, w)

abbrev pub continue : {W E A B : Type 0} → Result E A → (A → Effect W E B) → Effect W E B
continue (ok a) f w = f a w
continue (err e) f w = (err e, w)

infixl 5 ◌>>=◌ ◌>>◌
abbrev pub ◌>>=◌ : {W E A B : Type 0} → Effect W E A → (A → Effect W E B) → Effect W E B
◌>>=◌ m f w = let (r, w') = m w in continue r f w'

abbrev pub ◌>>◌ : {W E A B : Type 0} → Effect W E A → Effect W E B → Effect W E B
m >> n = m >>= λ _. n

abbrev pub map_error : {E F A : Type 0} → (E → F) → Result E A → Result F A
map_error f (ok a) = ok a
map_error f (err e) = err (f e)

-- `map_err`, and the conversion that `?` makes.
abbrev pub with_error : {W E F A : Type 0} → (E → F) → Effect W E A → Effect W F A
with_error f m w = let (r, w') = m w in (map_error f r, w')

abbrev pub result_cases : {E A B : Type 0} → (A → B) → (E → B) → Result E A → B
result_cases f g (ok a) = f a
result_cases f g (err e) = g e

-- `match m.await { Ok(a) => …, Err(e) => … }`.
abbrev pub attempt :
    {W E F A B : Type 0} → Effect W E A → (A → Effect W F B) → (E → Effect W F B) → Effect W F B
attempt m f g w = let (r, w') = m w in result_cases f g r w'

-- `.ok()` and `.unwrap_or(a)` on an answer
abbrev pub to_option : {W E F A : Type 0} → Effect W E A → Effect W F (Option A)
to_option m w = let (r, w') = m w in (ok (result_cases some (λ e. none) r), w')

abbrev pub or_else : {W E F A : Type 0} → A → Effect W E A → Effect W F A
or_else a m w = let (r, w') = m w in (ok (result_cases (λ x. x) (λ e. a) r), w')

-- `for x in xs { f(x).await?; }`
unfoldable pub for_each :
    {W E A : Type 0} → (A → Effect W E (Unit {0})) → List A → Effect W E (Unit {0})
for_each f [] = pure tt
for_each f (x ∷ xs) = f x >>= λ _. for_each f xs

-- `for x in xs { results.push(f(x).await?); }`
unfoldable pub collect : {W E A B : Type 0} → (A → Effect W E B) → List A → Effect W E (List B)
collect f [] = pure []
collect f (x ∷ xs) = f x >>= λ y. collect f xs >>= λ ys. pure (y ∷ ys)

pub Result-cases :
    {E A : Type 0} (r : Result E A) → ((a : A) × (r ≡ ok a)) ⊎ ((e : E) × (r ≡ err e))
Result-cases (ok a) = inl (a, refl)
Result-cases (err e) = inr (e, refl)

abbrev pub is_ok {ℓ κ} : {E : Type ℓ} {A : Type κ} → Result E A → Bool
is_ok (ok a) = true
is_ok (err e) = false

pub ok_answer : {E A : Type 0} (r : Result E A) → is_ok r ≡ true → (a : A) × (r ≡ ok a)
ok_answer (ok a) h = (a, refl)
ok_answer (err e) h = ground (arith, h)

pub ok-injective : {E A : Type 0} {a b : A} → ◌≡◌ {A = Result E A} (ok a) (ok b) → a ≡ b
ok-injective h = cc

abbrev pub map_result : {E A B : Type 0} → (A → B) → Result E A → Result E B
map_result f (ok a) = ok (f a)
map_result f (err e) = err e

pub continue_keeps :
    {W E A B : Type 0} (P : W → Type 0) (r : Result E A) (f : A → Effect W E B) (w : W)
    → P w
    → ((a : A) → P (f a w).1)
    → P (continue r f w).1
continue_keeps P (ok a) f w p h = h a
continue_keeps P (err e) f w p h = p
