-- ===== src/Prelude/GoMap.antt =====
-- Go's built-in maps, as association lists with one entry for each key. Keys are compared by
-- the decision that their `Key` instance carries.
use Prim.Native.Nat.{ℕ}
use mathlib.Core.Path.{◌≡◌, refl}
use mathlib.Core.Logic.{ite}
use mathlib.Core.List.{List, [], ◌∷◌, ◌++◌}
use mathlib.Core.Option.{Option, none, some}
use native.Mathlib.Decide.{ℕ_discrete}
use native.Mathlib.Omega.{arith}
use gamifykit.Prelude.Int.{ℤ, ℤ-discrete}

pub record Key {ℓ} (K : Type ℓ) : Type ℓ where
  pub decide : Discrete K

instance abbrev pub nat_key : Key ℕ
nat_key = record { decide = ℕ_discrete }

instance abbrev pub int_key : Key ℤ
int_key = record { decide = ℤ-discrete }

abbrev pub GoMap {ℓ} : Type ℓ → Type ℓ → Type ℓ
GoMap K V = List (K × V)

-- `map[K]struct{}`
abbrev pub GoSet {ℓ} : Type ℓ → Type ℓ
GoSet K = GoMap K Unit

module _ {ℓ} {K V : Type ℓ} ⦃key : Key K⦄ where
  -- `v, ok := m[k]`
  unfoldable pub get : GoMap K V → K → Option V
  get [] k = none
  get ((j, v) ∷ m) k = ite (key.decide j k) (some v) (get m k)

  -- `m[k] = v`
  unfoldable pub put : GoMap K V → K → V → GoMap K V
  put [] k v = (k, v) ∷ []
  put ((j, w) ∷ m) k v = ite (key.decide j k) ((k, v) ∷ m) ((j, w) ∷ put m k v)

  -- `delete(m, k)`
  unfoldable pub delete : GoMap K V → K → GoMap K V
  delete [] k = []
  delete ((j, w) ∷ m) k = let rest = delete m k in ite (key.decide j k) rest ((j, w) ∷ rest)

  -- `m[k]`, with the zero value `d` for a missing key
  abbrev pub get_or : GoMap K V → K → V → V
  get_or m k d = elim (get m k) [ none ↦ d | some v ↦ v ]

  pub get-put :
      (m : GoMap K V) (k j : K) (v : V)
      → get (put m k v) j ≡ ite (key.decide k j) (some v) (get m j)
  unfolding get put
  get-put [] k j v = refl
  get-put ((i, w) ∷ m) k j v = ground (arith, get-put m k j v)

  pub get-delete :
      (m : GoMap K V) (k j : K) → get (delete m k) j ≡ ite (key.decide k j) none (get m j)
  unfolding get delete
  get-delete [] k j = ground arith
  get-delete ((i, w) ∷ m) k j = ground (arith, get-delete m k j)

  -- A new key goes to the end.
  pub put_absent : (m : GoMap K V) (k : K) (v : V) → get m k ≡ none → put m k v ≡ m ++ (k, v) ∷ []
  unfolding get put
  put_absent [] k v h = refl
  put_absent ((j, w) ∷ m) k v h = ground (arith, put_absent m k v)

  pub delete_absent : (m : GoMap K V) (k : K) → get m k ≡ none → delete m k ≡ m
  unfolding get delete
  delete_absent [] k h = refl
  delete_absent ((j, w) ∷ m) k h = ground (arith, delete_absent m k)

  pub delete-put_absent :
      (m : GoMap K V) (k : K) (v : V) → get m k ≡ none → delete (put m k v) k ≡ m
  unfolding get put delete
  delete-put_absent [] k v h = ground arith
  delete-put_absent ((j, w) ∷ m) k v h = ground (arith, delete-put_absent m k v)
