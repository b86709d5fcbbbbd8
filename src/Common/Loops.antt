-- ===== src/Common/Loops.antt =====
-- Loops of fallible steps: what they collect, where they stop, and what they keep of the world.
use mathlib.Core.Path.{◌≡◌, refl}
use mathlib.Core.Bool.{true, false}
use mathlib.Core.List.{List, [], ◌∷◌, ◌++◌, map}
use mathlib.Core.Logic.{inl, inr}
use native.Mathlib.Omega.{arith}
use gpu_dead_node_detector.Common.Effects.{
  ok, Effect, ◌>>=◌, for_each, collect, Result-cases, is_ok, ok_answer, continue_keeps,
}

module _ {W E A B : Type 0} (f : A → Effect W E B) where
  -- A loop of steps that all succeed succeeds.
  pub collect_ok :
      ((x : A) (w : W) → is_ok (f x w).0 ≡ true)
      → (xs : List A) (w : W) → is_ok (collect f xs w).0 ≡ true
  unfolding collect
  collect_ok h [] w = refl
  collect_ok h (x ∷ xs) w = ground (arith, h x w, collect_ok h xs (f x w).1)

  -- Where each result shows what it was made from, the results of a loop that succeeds show the
  -- list that it went through, in its order.
  pub collect-keys :
      (key : B → A)
      → ((x : A) (w : W) (b : B) → (f x w).0 ≡ ok b → key b ≡ x)
      → (xs : List A) (w : W) (ys : List B) → (collect f xs w).0 ≡ ok ys
      → map key ys ≡ xs
  unfolding collect
  collect-keys key h [] w [] e = refl
  collect-keys key h [] w (y ∷ ys) e = cc
  collect-keys key h (x ∷ xs) w [] e = ground arith
  collect-keys key h (x ∷ xs) w (y ∷ ys) e =
      ground (arith, h x w y, collect-keys key h xs (f x w).1 ys)

-- One step of a loop of steps that all succeed, with what the steps before and after it collect.
pub collect-split :
    {W E A B : Type 0} (f : A → Effect W E B)
    → ((x : A) (w : W) → is_ok (f x w).0 ≡ true)
    → (before after : List A) (x : A) (w : W)
    → (ys : List B) × (y : B) × (zs : List B) × ((collect f (before ++ x ∷ after) w).0
        ≡ ok (ys ++ y ∷ zs))
      × ((collect f before w).0 ≡ ok ys)
      × ((f x (collect f before w).1).0 ≡ ok y)
      × ((collect f after (f x (collect f before w).1).1).0 ≡ ok zs)
unfolding collect
collect-split f h [] after x w =
    let (y, is_y) = ok_answer (f x w).0 (h x w) in
    let (zs, is_zs) = ok_answer (collect f after (f x w).1).0 (collect_ok f h after (f x w).1) in
    ([], y, zs, rw (is_y, is_zs), refl, is_y, is_zs)
collect-split f h (z ∷ before) after x w =
    let (first, is_first) = ok_answer (f z w).0 (h z w) in
    let (ys, y, zs, whole, is_ys, is_y, is_zs) = collect-split f h before after x (f z w).1 in
    (
      first ∷ ys,
      y,
      zs,
      rw (is_first, whole),
      rw (is_first, is_ys),
      rw (is_first, is_ys, is_y),
      rw (is_first, is_ys, is_zs),
    )

module _ {W E A B : Type 0} (m : Effect W E (List A)) (f : A → Effect W E B) where
  -- A loop over what was listed.
  pub sweep_ok :
      ((x : A) (w : W) → is_ok (f x w).0 ≡ true)
      → (w : W) → is_ok ((m >>= collect f) w).0 ≡ is_ok (m w).0
  sweep_ok h w = elim (Result-cases (m w).0) [
    | inl (xs, e) ↦ rw e (collect_ok f h xs (m w).1)
    | inr (x, e) ↦ rw e
  ]

  pub sweep-keys :
      (key : B → A)
      → ((x : A) (w : W) (b : B) → (f x w).0 ≡ ok b → key b ≡ x)
      → (w : W) {xs : List A} {ys : List B} → (m w).0 ≡ ok xs
      → ((m >>= collect f) w).0 ≡ ok ys
      → map key ys ≡ xs
  sweep-keys key h w {xs} {ys} e done = collect-keys f key h xs (m w).1 ys (rw e at done)

-- A loop with a step that fails in every world fails, wherever the step stands.
pub collect_fails :
    {W E A B : Type 0} (f : A → Effect W E B) (before after : List A) (x : A)
    → ((w : W) → is_ok (f x w).0 ≡ false)
    → (w : W) → is_ok (collect f (before ++ x ∷ after) w).0 ≡ false
unfolding collect
collect_fails f [] after x fails w = ground (arith, fails w)
collect_fails f (z ∷ before) after x fails w =
    ground (arith, collect_fails f before after x fails (f z w).1)

-- A loop keeps what each of its steps keeps, whether or not it stops early.
pub for_each_keeps :
    {W E A : Type 0} (P : W → Type 0) (f : A → Effect W E (Unit {0}))
    → ((x : A) (w : W) → P w → P (f x w).1)
    → (xs : List A) (w : W) → P w
    → P (for_each f xs w).1
unfolding for_each
for_each_keeps P f h [] w p = p
for_each_keeps P f h (x ∷ xs) w p =
    continue_keeps P (f x w).0 (λ done. for_each f xs) (f x w).1 (h x w p)
      (λ done. for_each_keeps P f h xs (f x w).1 (h x w p))

-- A loop whose first part succeeds goes on with the rest from where that part ends.
pub for_each-append :
    {W E A : Type 0} (f : A → Effect W E (Unit {0})) (before xs : List A) (w : W)
    → is_ok (for_each f before w).0 ≡ true
    → for_each f (before ++ xs) w ≡ for_each f xs (for_each f before w).1
unfolding for_each
for_each-append f [] xs w done = refl
for_each-append f (x ∷ before) xs w done = ground (arith, for_each-append f before xs (f x w).1)

-- What an effect keeps of the world, whether or not it fails.
abbrev pub Keeps : {W E A : Type 0} → (W → Type 0) → Effect W E A → Type 0
Keeps P m = (w : _) → P w → P (m w).1

module _ {W E A B : Type 0} (P : W → Type 0) where
  pub bind-Keeps :
      (m : Effect W E A) (f : A → Effect W E B)
      → Keeps P m
      → ((a : A) → Keeps P (f a))
      → Keeps P (m >>= f)
  bind-Keeps m f h k w p = continue_keeps P (m w).0 f (m w).1 (h w p) (λ a. k a (m w).1 (h w p))

  pub collect-Keeps :
      (f : A → Effect W E B) → ((a : A) → Keeps P (f a)) → (xs : List A) → Keeps P (collect f xs)
  unfolding collect
  collect-Keeps f h [] w p = p
  collect-Keeps f h (x ∷ xs) w p = continue_keeps P (f x w).0 _ (f x w).1 (h x w p) (λ y.
      continue_keeps P (collect f xs (f x w).1).0 _ _ (collect-Keeps f h xs (f x w).1 (h x w p))
        (λ ys. collect-Keeps f h xs (f x w).1 (h x w p)))
