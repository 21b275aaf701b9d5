-- ===== src/Core/BadgeName.antt =====
-- ValidateBadgeID of core/types.go. It checks the trimmed text, and its callers keep the text
-- that they were given.
use gamifykit.Prelude.{
  ℕ, ◌≤◌, ◌⊎◌, ◌≡◌, refl, ◌≢◌, ◌↔◌, ◌&&◌, ◌||◌, Bool, true, arith, List, [], ◌∷◌, leb, ◌==◌,
  if◌then◌else◌, Option, none, some,
}
use gamifykit.Core.Types.{Badge, Error, empty_badge_id, invalid_badge_id}
use gamifykit.Core.UserName.{trim_space}

unfoldable pub is_badge_char : ℕ → Bool
is_badge_char r =
    (leb b'a' r && leb r b'z')
    || (leb b'A' r && leb r b'Z')
    || (leb b'0' r && leb r b'9')
    || r == b'-'
    || r == b'_'

-- The loop over the trimmed text.
unfoldable pub check_chars : List ℕ → Option Error
check_chars [] = none
check_chars (r ∷ s) = if is_badge_char r then check_chars s else some invalid_badge_id

check_trimmed : List ℕ → Option Error
check_trimmed [] = some empty_badge_id
check_trimmed (r ∷ s) = check_chars (r ∷ s)

-- `none` is the nil error.
unfoldable pub validate_badge_id : Badge → Option Error
unfolding check_trimmed check_chars is_badge_char
validate_badge_id b = check_trimmed (trim_space b)

-- A lowercase letter (97 to 122), an uppercase letter (65 to 90), a digit (48 to 57), a dash (45)
-- or an underscore (95).
abbrev pub IsBadgeChar : ℕ → Type 0
IsBadgeChar r =
    ((97 ≤ r) × (r ≤ 122)) ⊎ ((65 ≤ r) × (r ≤ 90)) ⊎ ((48 ≤ r) × (r ≤ 57)) ⊎ (r ≡ 45) ⊎ (r ≡ 95)

abbrev pub AllBadgeChars : List ℕ → Type 0
AllBadgeChars [] = Unit {0}
AllBadgeChars (r ∷ s) = IsBadgeChar r × AllBadgeChars s

is_badge_char_lem : (r : ℕ) → (is_badge_char r ≡ true) ↔ IsBadgeChar r
unfolding is_badge_char
is_badge_char_lem r = (λ h. ground (arith, h), λ h. ground (arith, h))

check_chars-AllBadgeChars : (s : List ℕ) → (check_chars s ≡ none) ↔ AllBadgeChars s
unfolding check_chars
check_chars-AllBadgeChars [] = (λ _. tt, λ _. refl)
check_chars-AllBadgeChars (r ∷ s) =
    let (sound, complete) = check_chars-AllBadgeChars s in
    let (taken, accepted) = is_badge_char_lem r in
    (
      λ h. (taken (ground (arith, h)), sound (ground (arith, h))),
      λ (a, all). ground (arith, accepted a, complete all),
    )

check_trimmed_lem : (s : List ℕ) → (check_trimmed s ≡ none) ↔ ((s ≢ []) × AllBadgeChars s)
unfolding check_trimmed
check_trimmed_lem [] = (λ h. cc, λ h. absurd (h.0 refl))
check_trimmed_lem (r ∷ s) =
    let (sound, complete) = check_chars-AllBadgeChars (r ∷ s) in
    (λ h. (λ e. cc, sound h), λ h. complete h.1)

-- A badge is accepted exactly when something is left of it without the blanks around it, and
-- that is ASCII letters, digits, dashes and underscores only.
pub validate_badge_id_lem :
    (b : Badge)
    → (validate_badge_id b ≡ none) ↔ ((trim_space b ≢ []) × AllBadgeChars (trim_space b))
unfolding validate_badge_id
validate_badge_id_lem b = check_trimmed_lem (trim_space b)
