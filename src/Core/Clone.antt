-- ===== src/Core/Clone.antt =====
-- UserState.Clone of core/types.go: it fills new maps from the entries of the old ones. Go
-- visits the entries in no fixed order; here the last entry goes in first.
use gamifykit.Prelude.{◌≡◌, refl, arith, [], ◌∷◌}
use gamifykit.Prelude.GoMap.{Key, GoMap, get, put, get-put}
use gamifykit.Prelude.Text.{text_key}
use gamifykit.Core.Types.{UserState, Metric, Badge}

module _ {ℓ} {K V : Type ℓ} ⦃key : Key K⦄ where
  unfoldable pub copy_entries : GoMap K V → GoMap K V
  copy_entries [] = []
  copy_entries ((k, v) ∷ m) = put (copy_entries m) k v

  pub get-copy_entries : (m : GoMap K V) (k : K) → get (copy_entries m) k ≡ get m k
  unfolding copy_entries get
  get-copy_entries [] k = refl
  get-copy_entries ((j, v) ∷ m) k =
      ground (arith, get-put (copy_entries m) j k v, get-copy_entries m k)

unfoldable pub clone : UserState → UserState
clone s = record {
  user_id = s.user_id;
  points = copy_entries s.points;
  badges = copy_entries s.badges;
  levels = copy_entries s.levels;
  updated = s.updated;
}

-- Two states that no lookup tells apart.
pub record SameState (s t : UserState) : Type 0 where
  pub same_user : s.user_id ≡ t.user_id
  pub same_points : (m : Metric) → get s.points m ≡ get t.points m
  pub same_badges : (b : Badge) → get s.badges b ≡ get t.badges b
  pub same_levels : (m : Metric) → get s.levels m ≡ get t.levels m
  pub same_updated : s.updated ≡ t.updated

-- A clone has the entries of its original and no others, in every field.
pub clone-SameState : (s : UserState) → SameState (clone s) s
unfolding clone
clone-SameState s = record {
  same_user = refl;
  same_points = get-copy_entries s.points;
  same_badges = get-copy_entries s.badges;
  same_levels = get-copy_entries s.levels;
  same_updated = refl;
}
