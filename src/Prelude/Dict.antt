-- ===== src/Prelude/Dict.antt =====
-- Python's `dict`: its entries in insertion order. Proofs elsewhere go by the laws.
use mathlib.Core.Path.{◌≡◌, refl}
use mathlib.Core.Bool.{Bool, true, false}
use mathlib.Core.Option.{Option, none, some}
use mathlib.Core.List.{List, [], ◌∷◌}
use native.Mathlib.Omega.{arith}
use jetty.Prelude.Tests.{Eq, ◌==◌, if◌then◌else◌}
use jetty.Prelude.Lists.{contains, Distinct}

abbrev pub Dict {ℓ κ} : Type ℓ → Type κ → Type (ℓ ⊔ κ)
Dict K V = List (K × V)

module _ {ℓ κ} {K : Type ℓ} {V : Type κ} where
  abbrev pub keys : Dict K V → List K
  keys [] = []
  keys ((k, v) ∷ d) = k ∷ keys d

  abbrev pub values : Dict K V → List V
  values [] = []
  values ((k, v) ∷ d) = v ∷ values d

module _ {ℓ κ} {K : Type ℓ} {V : Type κ} ⦃e : Eq K⦄ where
  -- `d.get(k)`
  unfoldable pub get : Dict K V → K → Option V
  get [] k = none
  get ((j, v) ∷ d) k = if k == j then some v else get d k

  -- `d.get(k, x)`
  abbrev pub get_or : Dict K V → K → V → V
  get_or d k x = elim (get d k) [ none ↦ x | some v ↦ v ]

  -- `k in d`
  abbrev pub has : Dict K V → K → Bool
  has d k = elim (get d k) [ none ↦ false | some v ↦ true ]

  -- `d[k] = v` replaces in place, or appends.
  unfoldable pub put : Dict K V → K → V → Dict K V
  put [] k v = (k, v) ∷ []
  put ((j, w) ∷ d) k v = let rest = put d k v in if k == j then (k, v) ∷ d else (j, w) ∷ rest

  -- `d.pop(k, None)`, `del d[k]`. Every entry of the key goes; a dict has at most one.
  unfoldable pub remove : Dict K V → K → Dict K V
  remove [] k = []
  remove ((j, w) ∷ d) k = let rest = remove d k in if k == j then rest else (j, w) ∷ rest

  pub get-put :
      (d : Dict K V) (k j : K) (v : V) → get (put d k v) j ≡ (if j == k then some v else get d j)
  unfolding get put
  get-put [] k j v = refl
  get-put ((i, w) ∷ d) k j v = ground (arith, get-put d k j v)

  pub get-put_self : (d : Dict K V) (k : K) (v : V) → get (put d k v) k ≡ some v
  get-put_self d k v = ground (arith, get-put d k k v)

  pub get-put_other :
      (d : Dict K V) (k j : K) (v : V) → (j == k) ≡ false → get (put d k v) j ≡ get d j
  get-put_other d k j v h = ground (arith, get-put d k j v)

  pub get-remove :
      (d : Dict K V) (k j : K) → get (remove d k) j ≡ (if j == k then none else get d j)
  unfolding get remove
  get-remove [] k j = ground arith
  get-remove ((i, w) ∷ d) k j = ground (arith, get-remove d k j)

  pub get-nil : (k : K) → get [] k ≡ none
  unfolding get
  get-nil k = refl

module _ {ℓ κ} {K : Type ℓ} {V : Type κ} ⦃e : Eq K⦄ where
  -- The entries of `m` are what `d` holds at their keys.
  abbrev pub Holds : Dict K V → Dict K V → Type κ
  Holds d [] = Unit
  Holds d ((k, v) ∷ m) = (get d k ≡ some v) × Holds d m

  Holds-cons :
      (k : K) (v : V) (d m : Dict K V)
      → contains (keys m) k ≡ false
      → Holds d m
      → Holds ((k, v) ∷ d) m
  unfolding get
  Holds-cons k v d [] h a = tt
  Holds-cons k v d ((j, w) ∷ m) h a = (ground arith, Holds-cons k v d m (ground arith) a.1)

  -- A dictionary with distinct keys holds each of its entries.
  pub Holds-self : (d : Dict K V) → Distinct (keys d) → Holds d d
  unfolding get
  Holds-self [] h = tt
  Holds-self ((k, v) ∷ d) h = (ground arith, Holds-cons k v d d h.0 (Holds-self d h.1))

  pub has-keys : (d : Dict K V) (k : K) → has d k ≡ contains (keys d) k
  unfolding get
  has-keys [] k = refl
  has-keys ((j, v) ∷ d) k = ground (arith, has-keys d k)
