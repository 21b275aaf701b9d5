-- ===== src/Engine/Storage/History.antt =====
-- Histories of calls of a storage of engine/interfaces.go, and what they make of the profiles.
use gamifykit.Prelude.{
  ◌≡◌, ◌∙◌, refl, ap, arith, ite, List, [], ◌∷◌, none, Result, Result-cases, ok, err, inl, inr,
  false,
}
use gamifykit.Prelude.Int.{ℤ, pos}
use gamifykit.Prelude.Text.{Text-discrete}
use gamifykit.Core.{UserId, Metric, Badge, Time, Error, UserState}
use gamifykit.Core.Arith.{add_safe}
use gamifykit.Engine.Storage.{
  Storage, Contract, Profile, shown, with_points, with_level, with_badge,
}

-- A call of one of the four methods.
pub data StorageCall : Type 0 where
  call_add_points : UserId → Metric → ℤ → StorageCall
  call_award_badge : UserId → Badge → StorageCall
  call_get_state : UserId → StorageCall
  call_set_level : UserId → Metric → ℤ → StorageCall

abbrev pub call_storage : (S : Storage) → S.State → Time → StorageCall → S.State
call_storage S s now (call_add_points u m d) = (S.add_points s now u m d).1
call_storage S s now (call_award_badge u b) = (S.award_badge s now u b).1
call_storage S s now (call_get_state u) = (S.get_state s now u).1
call_storage S s now (call_set_level u m n) = (S.set_level s now u m n).1

-- The calls one after the other, each with the reading of the clock.
abbrev pub run_calls : (S : Storage) → S.State → List (Time × StorageCall) → S.State
run_calls S s [] = s
run_calls S s ((now, c) ∷ cs) = run_calls S (call_storage S s now c) cs

abbrev pub Profiles : Type 0
Profiles = UserId → Profile

-- Nothing is held of any user.
abbrev pub no_profiles : Profiles
no_profiles u = record { points = λ m. pos 0; levels = λ m. pos 0; has_badge = λ b. false }

abbrev pub at_user : UserId → (Profile → Profile) → Profiles → Profiles
at_user u f ps v = ite (Text-discrete u v) (f (ps v)) (ps v)

abbrev pub with_sum : Metric → Result Error ℤ → Profile → Profile
with_sum m (ok n) p = with_points m n p
with_sum m (err _) p = p

-- What a call is meant to do: an addition stores the sum, unless it is no int64; an award adds the
-- badge; a level is stored; a reading changes nothing.
abbrev pub meant : StorageCall → Profiles → Profiles
meant (call_add_points u m d) ps = at_user u (with_sum m (add_safe ((ps u).points m) d)) ps
meant (call_award_badge u b) ps = at_user u (with_badge b) ps
meant (call_get_state u) ps = ps
meant (call_set_level u m n) ps = at_user u (with_level m n) ps

abbrev pub meant_all : List (Time × StorageCall) → Profiles → Profiles
meant_all [] ps = ps
meant_all ((now, c) ∷ cs) ps = meant_all cs (meant c ps)

-- A storage that only refuses sums, from a state that holds nothing.
pub record IsExact {S : Storage} (contract : Contract S) (empty : S.State) : Type 0 where
  pub starts_valid : contract.IsValid empty
  pub starts_blank : (u : UserId) → contract.profile empty u ≡ no_profiles u
  pub adds :
      (s : S.State) (now : Time) (u : UserId) (m : Metric) (d : ℤ)
      → (S.add_points s now u m d).0 ≡ add_safe ((contract.profile s u).points m) d
  pub awards :
      (s : S.State) (now : Time) (u : UserId) (b : Badge) → (S.award_badge s now u b).0 ≡ none
  pub reads :
      (s : S.State) (now : Time) (u : UserId)
      → (shot : UserState) × ((S.get_state s now u).0 ≡ ok shot)
  pub sets :
      (s : S.State) (now : Time) (u : UserId) (m : Metric) (n : ℤ)
      → (S.set_level s now u m n).0 ≡ none

with_first : {A B : Type 0} (r : A × B) {x : A} → r.0 ≡ x → r ≡ (x, r.1)
with_first r h = λ i. (h i, r.1)

module _ {S : Storage} (contract : Contract S) (empty : S.State)
    (exact : IsExact contract empty) where
  open contract use {profile, IsValid}

  abbrev Holds : S.State → Profiles → Type 0
  Holds s ps = (v : UserId) → profile s v ≡ ps v

  add-Holds :
      (s : S.State) (ps : Profiles) (now : Time) (u : UserId) (m : Metric) (d : ℤ)
      → Holds s ps
      → (v : UserId)
      → profile (S.add_points s now u m d).1 v
        ≡ at_user u (with_sum m (add_safe ((ps u).points m) d)) ps v
  add-Holds s ps now u m d h v =
      let same : (profile s u).points m ≡ (ps u).points m = ap (λ p. p.points m) (h u) in
      elim (Result-cases (add_safe ((ps u).points m) d)) [
        | inl (n, e) ↦
            let (_, after) = contract.add_points_ok s now u m d n (S.add_points s now u m d).1 (
              with_first (S.add_points s now u m d) (exact.adds s now u m d ∙ rw (same, e) refl)) in
            rw e (ground (arith, after v, h v))
        | inr (x, e) ↦
            let (_, after) = contract.add_points_refused s now u m d x (rw (same, e) refl) in
            rw e (ground (arith, after v, h v))
      ]

  call-Holds :
      (s : S.State) (ps : Profiles) (now : Time) (c : StorageCall)
      → IsValid s
      → Holds s ps
      → IsValid (call_storage S s now c) × Holds (call_storage S s now c) (meant c ps)
  call-Holds s ps now (call_add_points u m d) k h =
      (contract.add_points_valid s now u m d k, add-Holds s ps now u m d h)
  call-Holds s ps now (call_award_badge u b) k h = (
    contract.award_badge_valid s now u b k,
    λ v. ground (
      arith,
      h v,
      contract.award_badge_ok s now u b (S.award_badge s now u b).1
          (with_first (S.award_badge s now u b) (exact.awards s now u b)) v,
    ),
  )
  call-Holds s ps now (call_get_state u) k h =
      let (shot, e) = exact.reads s now u in
      let (_, _, after) =
        contract.get_state_ok s now u shot (S.get_state s now u).1 k
          (with_first (S.get_state s now u) e) in
      (contract.get_state_valid s now u k, λ v. after v ∙ h v)
  call-Holds s ps now (call_set_level u m n) k h = (
    contract.set_level_valid s now u m n k,
    λ v. ground (
      arith,
      h v,
      contract.set_level_ok s now u m n (S.set_level s now u m n).1
          (with_first (S.set_level s now u m n) (exact.sets s now u m n)) v,
    ),
  )

  run-Holds :
      (s : S.State) (ps : Profiles) (cs : List (Time × StorageCall))
      → IsValid s
      → Holds s ps
      → IsValid (run_calls S s cs) × Holds (run_calls S s cs) (meant_all cs ps)
  run-Holds s ps [] k h = (k, h)
  run-Holds s ps ((now, c) ∷ cs) k h =
      let (k', h') = call-Holds s ps now c k h in
      run-Holds (call_storage S s now c) (meant c ps) cs k' h'

  -- The answers behind a history are those of the profiles that it is meant to make.
  pub run_calls_lem :
      (cs : List (Time × StorageCall)) (now : Time) (u : UserId) (m : Metric) (d n : ℤ) (b : Badge)
      → let s = run_calls S empty cs in
        let p = meant_all cs no_profiles u in
        ((shot : UserState) × ((S.get_state s now u).0 ≡ ok shot)
          × (shot.user_id ≡ u)
          × (shown shot ≡ p))
        × ((S.add_points s now u m d).0 ≡ add_safe (p.points m) d)
        × ((S.award_badge s now u b).0 ≡ none)
        × ((S.set_level s now u m n).0 ≡ none)
  run_calls_lem cs now u m d n b =
      let s = run_calls S empty cs in
      let (k, h) = run-Holds empty no_profiles cs exact.starts_valid exact.starts_blank in
      let (shot, e) = exact.reads s now u in
      let (own, seen, _) =
        contract.get_state_ok s now u shot (S.get_state s now u).1 k
          (with_first (S.get_state s now u) e) in
      (
        (shot, e, own, seen ∙ h u),
        exact.adds s now u m d ∙ ap (λ p. add_safe (p.points m) d) (h u),
        exact.awards s now u b,
        exact.sets s now u m n,
      )
