-- ===== src/Core/UserName.antt =====
-- NormalizeUserID of core/types.go. `strings.ToLower` maps each code point by `unicode.ToLower`,
-- whose table is outside the repository: it is the parameter `case_table`, with what its
-- documentation says.
use gamifykit.Prelude.{
  ℕ, ◌+◌, ◌≤◌, ◌≡◌, refl, ap, ◌≢◌, ◌∙◌, ◌&&◌, ◌||◌, Bool, arith, [], ◌∷◌, map, leb, ◌==◌,
  if◌then◌else◌, Result, ok, err,
}
use gamifykit.Prelude.Text.{Text}
use gamifykit.Core.Types.{UserId, Error, empty_user_id}

-- `unicode.IsSpace`, which TrimSpace cuts by.
unfoldable pub is_space : ℕ → Bool
is_space c =
    (leb 9 c && leb c 13)
    || c == 32
    || c == 0x85
    || c == 0xA0
    || c == 0x1680
    || (leb 0x2000 c && leb c 0x200A)
    || c == 0x2028
    || c == 0x2029
    || c == 0x202F
    || c == 0x205F
    || c == 0x3000

pub record CaseTable : Type 0 where
  pub to_lower : ℕ → ℕ
  pub to_lower_ascii : (c : ℕ) → c ≤ 127 → to_lower c ≡ (if leb 65 c && leb c 90 then c + 32 else c)
  pub to_lower_idem : (c : ℕ) → to_lower (to_lower c) ≡ to_lower c
  pub to_lower_space : (c : ℕ) → is_space (to_lower c) ≡ is_space c

unfoldable pub trim_left : Text → Text
trim_left [] = []
trim_left (c ∷ s) = if is_space c then trim_left s else c ∷ s

abbrev cons_unless_blank : ℕ → Text → Text
cons_unless_blank c [] = if is_space c then [] else c ∷ []
cons_unless_blank c (d ∷ s) = c ∷ d ∷ s

unfoldable pub trim_right : Text → Text
trim_right [] = []
trim_right (c ∷ s) = cons_unless_blank c (trim_right s)

-- `strings.TrimSpace`
unfoldable pub trim_space : Text → Text
unfolding trim_left trim_right
trim_space s = trim_right (trim_left s)

module _ (case_table : CaseTable) where
  open case_table use {to_lower}

  -- `strings.ToLower`
  unfoldable pub lower : Text → Text
  lower s = map to_lower s

  unfoldable pub normalize_user_id : UserId → Result Error UserId
  normalize_user_id id = elim (trim_space id) [
    | [] ↦ err empty_user_id
    | c ∷ s ↦ ok (lower (c ∷ s))
  ]

trim_left_blank : (s : Text) → trim_left (trim_left s) ≡ trim_left s
unfolding trim_left
trim_left_blank [] = refl
trim_left_blank (c ∷ s) = ground (arith, trim_left_blank s)

trim_right_blank : (s : Text) → trim_right (trim_right s) ≡ trim_right s
unfolding trim_right
trim_right_blank [] = refl
trim_right_blank (c ∷ s) = ground (arith, trim_right_blank s)

trim_left-trim_right : (s : Text) → trim_left (trim_right s) ≡ trim_right (trim_left s)
unfolding trim_left trim_right
trim_left-trim_right [] = refl
trim_left-trim_right (c ∷ s) = ground (arith, trim_left-trim_right s)

trim_space_idem : (s : Text) → trim_space (trim_space s) ≡ trim_space s
unfolding trim_space
trim_space_idem s =
    rw (trim_left-trim_right (trim_left s), trim_left_blank s) (trim_right_blank (trim_left s))

module _ (case_table : CaseTable) where
  open case_table use {to_lower, to_lower_idem, to_lower_space}

  trim_left-lower : (s : Text) → trim_left (lower case_table s) ≡ lower case_table (trim_left s)
  unfolding trim_left lower
  trim_left-lower [] = refl
  trim_left-lower (c ∷ s) = ground (arith, to_lower_space c, trim_left-lower s)

  trim_right-lower : (s : Text) → trim_right (lower case_table s) ≡ lower case_table (trim_right s)
  unfolding trim_right lower
  trim_right-lower [] = refl
  trim_right-lower (c ∷ s) = ground (arith, to_lower_space c, trim_right-lower s)

  trim_space-lower : (s : Text) → trim_space (lower case_table s) ≡ lower case_table (trim_space s)
  unfolding trim_space
  trim_space-lower s = rw (trim_left-lower s) (trim_right-lower (trim_left s))

  lower_idem : (s : Text) → lower case_table (lower case_table s) ≡ lower case_table s
  unfolding lower
  lower_idem [] = refl
  lower_idem (c ∷ s) = cc (to_lower_idem c, lower_idem s)

  normalize_ok :
      (s : Text) {v : UserId}
      → normalize_user_id case_table s ≡ ok v
      → (v ≡ lower case_table (trim_space s)) × (v ≢ [])
  unfolding normalize_user_id lower
  normalize_ok s h = ground arith

  normalize_fixed :
      (v : Text)
      → trim_space v ≡ v
      → lower case_table v ≡ v
      → v ≢ []
      → normalize_user_id case_table v ≡ ok v
  unfolding normalize_user_id
  normalize_fixed [] p q n = absurd (n refl)
  normalize_fixed (c ∷ s) p q n = rw (p, normalize_user_id) (ap ok q)

  -- A normalised user id is not empty, has no blank at either end, and is itself normalised: to
  -- normalise it again gives it back.
  pub normalize_user_id_idem :
      (id : UserId) {v : UserId}
      → normalize_user_id case_table id ≡ ok v
      → (v ≢ []) × (trim_space v ≡ v) × (normalize_user_id case_table v ≡ ok v)
  normalize_user_id_idem id {v} h =
      let (e, n) = normalize_ok id h in
      let trimmed : trim_space v ≡ v =
        rw e (trim_space-lower (trim_space id) ∙ ap (lower case_table) (trim_space_idem id)) in
      let lowered : lower case_table v ≡ v = rw e (lower_idem (trim_space id)) in
      (n, trimmed, normalize_fixed v trimmed lowered n)
