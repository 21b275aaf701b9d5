-- ===== src/Stores/Table.antt =====
-- A table of users, which the in-memory and the file backend keep, seen as profiles.
pub mod Backend
use gamifykit.Prelude.{◌≡◌, ◌≢◌, refl, ◌∙◌, arith, ite, [], none, some, fun_ext, Bool, false}
use gamifykit.Prelude.Int.{ℤ, pos}
use gamifykit.Prelude.GoMap.{GoMap, get, get_or, put, get-put}
use gamifykit.Prelude.Text.{Text-discrete, text_key}
use gamifykit.Core.{UserId, Metric, Badge, Time, UserState}
use gamifykit.Engine.Storage.{Profile, Profile-path, shown, with_points, with_level, with_badge}

abbrev pub Table : Type 0
Table = GoMap UserId UserState

-- The record of a user who was never seen.
abbrev pub new_user : UserId → Time → UserState
new_user user now = record { user_id = user; points = []; badges = []; levels = []; updated = now }

abbrev pub blank_profile : Profile
blank_profile = record { points = λ m. pos 0; levels = λ m. pos 0; has_badge = λ b. false }

unfoldable pub table_profile : Table → UserId → Profile
table_profile t u = elim (get t u) [ none ↦ blank_profile | some st ↦ shown st ]

pub table_profile-put :
    (t : Table) (u v : UserId) (st : UserState)
    → table_profile (put t u st) v ≡ ite (Text-discrete u v) (shown st) (table_profile t v)
unfolding table_profile
table_profile-put t u v st = ground (arith, get-put t u v st)

pub shown-new_user : (u : UserId) (now : Time) → shown (new_user u now) ≡ blank_profile
unfolding get
shown-new_user u now = refl

pub shown-put_points :
    (st : UserState) (m : Metric) (n : ℤ) (now : Time)
    → shown (record st { points = put st.points m n; updated = now }) ≡ with_points m n (shown st)
shown-put_points st m n now =
    Profile-path (λ k. ground (arith, get-put st.points m k n)) (λ k. refl) (λ b. refl)

pub shown-put_level :
    (st : UserState) (m : Metric) (n : ℤ) (now : Time)
    → shown (record st { levels = put st.levels m n; updated = now }) ≡ with_level m n (shown st)
shown-put_level st m n now =
    Profile-path (λ k. refl) (λ k. ground (arith, get-put st.levels m k n)) (λ b. refl)

pub shown-put_badge :
    (st : UserState) (b : Badge) (now : Time)
    → shown (record st { badges = put st.badges b tt; updated = now }) ≡ with_badge b (shown st)
shown-put_badge st b now =
    Profile-path (λ k. refl) (λ k. refl) (λ c. ground (arith, get-put st.badges b c tt))

-- Each record is filed under its own user.
pub record IsFiled (t : Table) : Type 0 where
  pub filed : (u : UserId) (st : UserState) → get t u ≡ some st → st.user_id ≡ u

pub IsFiled-empty : IsFiled []
unfolding get
IsFiled-empty = record { filed = λ u st h. cc }

pub put-IsFiled :
    (t : Table) (u : UserId) (st : UserState) → st.user_id ≡ u → IsFiled t → IsFiled (put t u st)
put-IsFiled t u st e f = record { filed = λ v r h. ground (arith, get-put t u v st, f.filed v r) }

blank_of_none : (t : Table) (u : UserId) → get t u ≡ none → blank_profile ≡ table_profile t u
unfolding table_profile
blank_of_none t u h = ground arith

-- What a backend's lookup of a user's record does: the record of the user, or a new one, which
-- may be filed at once.
pub record Finds (t : Table) (u : UserId) (st : UserState) (t' : Table) : Type 0 where
  pub owned : IsFiled t → st.user_id ≡ u
  pub seen : shown st ≡ table_profile t u
  pub kept : (v : UserId) → table_profile t' v ≡ table_profile t v
  pub still_filed : IsFiled t → IsFiled t'

module _ {t t' : Table} {u : UserId} {st : UserState} (found : Finds t u st t') where
  -- Filing a changed record changes the profile of its user in the same way, and no other.
  pub table_profile-refile :
      (st' : UserState) (f : Profile → Profile)
      → shown st' ≡ f (shown st)
      → (v : UserId)
      → table_profile (put t' u st') v
        ≡ ite (Text-discrete u v) (f (table_profile t v)) (table_profile t v)
  table_profile-refile st' f e v =
      ground (arith, table_profile-put t' u v st', found.kept v, found.seen)

  pub refile-IsFiled :
      (st' : UserState) → st'.user_id ≡ st.user_id → IsFiled t → IsFiled (put t' u st')
  refile-IsFiled st' e f = put-IsFiled t' u st' (e ∙ found.owned f) (found.still_filed f)

pub find_existing-Finds :
    (t : Table) (u : UserId) (st : UserState) → get t u ≡ some st → Finds t u st t
unfolding table_profile
find_existing-Finds t u st h = record {
  owned = λ f. f.filed u st h;
  seen = ground arith;
  kept = λ v. refl;
  still_filed = λ f. f;
}

pub find_new-Finds :
    (t : Table) (u : UserId) (now : Time)
    → get t u ≡ none
    → Finds t u (new_user u now) (put t u (new_user u now))
find_new-Finds t u now h = record {
  owned = λ f. refl;
  seen = shown-new_user u now ∙ absent;
  kept = λ v. rw (table_profile-put t u v (new_user u now), shown-new_user u now) (elsewhere v);
  still_filed = λ f. put-IsFiled t u (new_user u now) refl f;
}
  where
    absent : blank_profile ≡ table_profile t u
    absent = blank_of_none t u h

    elsewhere :
        (v : UserId) → ite (Text-discrete u v) blank_profile (table_profile t v) ≡ table_profile t v
    elsewhere v = ground (arith, blank_of_none t u h)
