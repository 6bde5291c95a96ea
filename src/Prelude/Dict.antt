-- ===== src/Prelude/Dict.antt =====
-- Python dictionaries from identifiers, as association lists. `d[k] = v` keeps the place of a key
-- that is there and appends a new one, as the insertion order of `dict` does.
use Prim.Native.Nat.{ℕ}
use mathlib.Core.Path.{◌≡◌}
use mathlib.Core.Option.{Option, none, some}
use mathlib.Core.List.{List, [], ◌∷◌, map}
use native.Mathlib.Omega.{arith}
use world_of_seeds.Prelude.Tests.{◌==◌, if◌then◌else◌}

abbrev pub Dict {ℓ} : Type ℓ → Type ℓ
Dict V = List (ℕ × V)

module _ {ℓ} {V : Type ℓ} where
  -- `d.get(k)`
  unfoldable pub get : Dict V → ℕ → Option V
  get [] k = none
  get ((j, v) ∷ d) k = if j == k then some v else get d k

  -- `d.get(k, fallback)`
  unfoldable pub get_or : Dict V → ℕ → V → V
  get_or [] k v = v
  get_or ((j, w) ∷ d) k v = if j == k then w else get_or d k v

  -- `d[k] = v`
  unfoldable pub put : Dict V → ℕ → V → Dict V
  put [] k v = (k, v) ∷ []
  put ((j, w) ∷ d) k v = let rest = put d k v in if j == k then (j, v) ∷ d else (j, w) ∷ rest

  abbrev pub keys : Dict V → List ℕ
  keys d = map (λ e. e.0) d

  pub get-put :
      (d : Dict V) (k j : ℕ) (v : V) → get (put d k v) j ≡ (if k == j then some v else get d j)
  unfolding get put
  get-put [] k j v = ground arith
  get-put ((i, w) ∷ d) k j v = ground (arith, get-put d k j v)

  pub get_or-put :
      (d : Dict V) (k j : ℕ) (v w : V)
      → get_or (put d k v) j w ≡ (if k == j then v else get_or d j w)
  unfolding get_or put
  get_or-put [] k j v w = ground arith
  get_or-put ((i, u) ∷ d) k j v w = ground (arith, get_or-put d k j v w)
