-- ===== src/Common/Dicts.antt =====
-- A map with text keys, as an association list with one entry for each key: `HashMap<String, V>`.
-- The order of its entries stands for the unspecified iteration order.
use Prim.Native.String.{String}
use mathlib.Core.Path.{◌≡◌, refl, subst₂}
use mathlib.Core.Logic.{inl, inr}
use mathlib.Core.Bool.{Bool, true, false, ◌||◌}
use mathlib.Core.Option.{Option, none, some, some-injective}
use mathlib.Core.List.{List, [], ◌∷◌}
use native.Mathlib.Omega.{arith}
use text.Mathlib.Text.{◌==◌ as str_eq}
use text.Mathlib.TextPositions.{eq_refl}
use text.Mathlib.TextEquality.{eq_iff}
use gpu_dead_node_detector.Common.Tests.{Bool-cases, if◌then◌else◌}

abbrev pub Dict {ℓ} : Type ℓ → Type ℓ
Dict V = List (String × V)

module _ {ℓ} {V : Type ℓ} where
  unfoldable pub lookup : String → Dict V → Option V
  lookup wanted [] = none
  lookup wanted ((key, value) ∷ rest) = if str_eq key wanted then some value else lookup wanted rest

  -- `HashMap::insert` replaces the value of a key that is there.
  unfoldable pub insert : String → V → Dict V → Dict V
  insert new value [] = (new, value) ∷ []
  insert new value ((key, old) ∷ rest) =
      if str_eq key new then (new, value) ∷ rest else (key, old) ∷ insert new value rest

  pub lookup-insert :
      (new wanted : String) (value : V) (m : Dict V)
      → lookup wanted (insert new value m)
        ≡ (if str_eq new wanted then some value else lookup wanted m)
  unfolding lookup insert
  lookup-insert new wanted value [] = refl
  lookup-insert new wanted value ((key, old) ∷ rest) = ground (
    arith,
    lookup-insert new wanted value rest,
    eq_iff key new,
    eq_iff key wanted,
    eq_iff new wanted,
  )

  pub lookup-nil : (k : String) → lookup k [] ≡ none
  unfolding lookup
  lookup-nil k = refl

  unfoldable pub has_key : String → Dict V → Bool
  has_key k [] = false
  has_key k ((j, v) ∷ m) = str_eq j k || has_key k m

  -- One entry for each key.
  unfoldable pub is_distinct : Dict V → Bool
  is_distinct [] = true
  is_distinct ((j, v) ∷ m) = if has_key j m then false else is_distinct m

  pub has_key-insert :
      (k j : String) (v : V) (m : Dict V) → has_key j (insert k v m) ≡ (str_eq k j || has_key j m)
  unfolding has_key insert
  has_key-insert k j v [] = refl
  has_key-insert k j v ((i, w) ∷ m) =
      ground (arith, eq_iff k j, eq_iff i k, eq_iff i j, has_key-insert k j v m)

  pub is_distinct-insert :
      (k : String) (v : V) (m : Dict V) → is_distinct m ≡ true → is_distinct (insert k v m) ≡ true
  unfolding is_distinct insert has_key
  is_distinct-insert k v [] h = refl
  is_distinct-insert k v ((i, w) ∷ m) h =
      ground (arith, eq_iff i k, eq_iff k i, has_key-insert k i v m, is_distinct-insert k v m)

-- What holds of every entry holds after an insertion, if it holds of the new one.
pub insert-keeps {ℓ κ} :
    {V : Type ℓ} (P : String → V → Type κ) (k : String) (v : V) (m : Dict V)
    → P k v
    → ((j : String) (w : V) → lookup j m ≡ some w → P j w)
    → (j : String) (w : V) → lookup j (insert k v m) ≡ some w
    → P j w
insert-keeps P k v m new old j w e = elim (Bool-cases (str_eq k j)) [
  | inl same ↦
      let found : some v ≡ some w = ground (arith, lookup-insert k j v m) in
      subst₂ P ((eq_iff k j).0 same) (some-injective v w found) new
  | inr other ↦ old j w (ground (arith, lookup-insert k j v m))
]

module _ {ℓ} {V : Type ℓ} where
  -- An entry whose key stands again further down would hide it.
  pub lookup-has_key : (k : String) (v : V) (m : Dict V) → lookup k m ≡ some v → has_key k m ≡ true
  unfolding lookup has_key
  lookup-has_key k v [] h = cc
  lookup-has_key k v ((j, w) ∷ m) h = ground (arith, lookup-has_key k v m)

  abbrev pub Holds {κ} : (String → V → Type κ) → Dict V → Type κ
  Holds P [] = Unit
  Holds P ((k, v) ∷ m) = P k v × Holds P m

  -- What is true of all that `lookup` finds is true of every entry of a map with distinct keys.
  pub Holds-lookup {κ} :
      (P : String → V → Type κ) (m : Dict V)
      → is_distinct m ≡ true
      → ((k : String) (v : V) → lookup k m ≡ some v → P k v)
      → Holds P m
  unfolding is_distinct lookup
  Holds-lookup P [] d h = tt
  Holds-lookup P ((j, w) ∷ m) d h = (
    h j w (rw eq_refl),
    Holds-lookup P m (ground arith)
        λ k v e. h k v (ground (arith, eq_iff j k, lookup-has_key k v m e)),
  )
