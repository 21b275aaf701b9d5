-- ===== src/Engine/Storage.antt =====
-- The interface `Storage` of engine/interfaces.go, and the contract that the service relies on.
-- A method takes the state of the backend and the reading of the clock, and returns its result
-- with the new state; a nil error is `none`.
pub mod History
use gamifykit.Prelude.{◌≡◌, ite, Option, none, Bool, true, Result, ok, err}
use gamifykit.Prelude.Int.{ℤ, pos}
use gamifykit.Prelude.GoMap.{get, get_or}
use gamifykit.Prelude.Text.{Text-discrete, text_key}
use gamifykit.Core.{UserId, Metric, Badge, Time, Error, UserState}
use gamifykit.Core.Arith.{add_safe}

pub record Storage : Type 1 where
  pub State : Type 0
  pub add_points : State → Time → UserId → Metric → ℤ → Result Error ℤ × State
  pub award_badge : State → Time → UserId → Badge → Option Error × State
  pub get_state : State → Time → UserId → Result Error UserState × State
  pub set_level : State → Time → UserId → Metric → ℤ → Option Error × State

-- What a backend holds of one user, whatever its representation.
pub record Profile : Type 0 where
  pub points : Metric → ℤ
  pub levels : Metric → ℤ
  pub has_badge : Badge → Bool

pub Profile-path :
    {p q : Profile}
    → ((m : Metric) → p.points m ≡ q.points m)
    → ((m : Metric) → p.levels m ≡ q.levels m)
    → ((b : Badge) → p.has_badge b ≡ q.has_badge b)
    → p ≡ q
Profile-path h k l =
    λ i. record { points = λ m. h m i; levels = λ m. k m i; has_badge = λ b. l b i }

abbrev pub with_points : Metric → ℤ → Profile → Profile
with_points m n p = record p { points = λ k. ite (Text-discrete m k) n (p.points k) }

abbrev pub with_level : Metric → ℤ → Profile → Profile
with_level m n p = record p { levels = λ k. ite (Text-discrete m k) n (p.levels k) }

abbrev pub with_badge : Badge → Profile → Profile
with_badge b p = record p { has_badge = λ c. ite (Text-discrete b c) true (p.has_badge c) }

abbrev pub is_some {ℓ} : {A : Type ℓ} → Option A → Bool
is_some none = Bool.false
is_some (Option.some _) = true

-- The profile that a returned state shows; a metric that is missing counts as 0.
abbrev pub shown : UserState → Profile
shown s = record {
  points = λ m. get_or s.points m (pos 0);
  levels = λ m. get_or s.levels m (pos 0);
  has_badge = λ b. is_some (get s.badges b);
}

-- The interface between the service and a backend, which chooses the profiles and the validity. A
-- call that succeeds does to the profile of its user what its name says, and nothing to any
-- other; `get_state` shows the profile. A sum that is no int64 is refused and changes no profile.
pub record Contract (S : Storage) : Type 1 where
  pub profile : S.State → UserId → Profile
  -- what the backend keeps true of its own state
  pub IsValid : S.State → Type 0
  pub add_points_valid :
      (s : S.State) (now : Time) (u : UserId) (m : Metric) (d : ℤ)
      → IsValid s
      → IsValid (S.add_points s now u m d).1
  pub award_badge_valid :
      (s : S.State) (now : Time) (u : UserId) (b : Badge)
      → IsValid s
      → IsValid (S.award_badge s now u b).1
  pub get_state_valid :
      (s : S.State) (now : Time) (u : UserId) → IsValid s → IsValid (S.get_state s now u).1
  pub set_level_valid :
      (s : S.State) (now : Time) (u : UserId) (m : Metric) (n : ℤ)
      → IsValid s
      → IsValid (S.set_level s now u m n).1
  pub add_points_ok :
      (s : S.State) (now : Time) (u : UserId) (m : Metric) (d n : ℤ) (t : S.State)
      → S.add_points s now u m d ≡ (ok n, t)
      → (add_safe ((profile s u).points m) d ≡ ok n)
        × ((v : UserId)
            → profile t v ≡ ite (Text-discrete u v) (with_points m n (profile s v)) (profile s v))
  pub add_points_refused :
      (s : S.State) (now : Time) (u : UserId) (m : Metric) (d : ℤ) (e : Error)
      → add_safe ((profile s u).points m) d ≡ err e
      → ((S.add_points s now u m d).0 ≡ err e)
        × ((v : UserId) → profile (S.add_points s now u m d).1 v ≡ profile s v)
  pub award_badge_ok :
      (s : S.State) (now : Time) (u : UserId) (b : Badge) (t : S.State)
      → S.award_badge s now u b ≡ (none, t)
      → (v : UserId)
      → profile t v ≡ ite (Text-discrete u v) (with_badge b (profile s v)) (profile s v)
  pub set_level_ok :
      (s : S.State) (now : Time) (u : UserId) (m : Metric) (n : ℤ) (t : S.State)
      → S.set_level s now u m n ≡ (none, t)
      → (v : UserId)
      → profile t v ≡ ite (Text-discrete u v) (with_level m n (profile s v)) (profile s v)
  pub get_state_ok :
      (s : S.State) (now : Time) (u : UserId) (shot : UserState) (t : S.State)
      → IsValid s
      → S.get_state s now u ≡ (ok shot, t)
      → (shot.user_id ≡ u) × (shown shot ≡ profile s u) × ((v : UserId) → profile t v ≡ profile s v)
