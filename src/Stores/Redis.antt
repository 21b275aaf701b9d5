-- ===== src/Stores/Redis.antt =====
-- The operations of adapters/redis/storage.go over a Redis server, which is a parameter, as is the
-- encoding of a state as JSON. The Lua script runs on the server: it is one of its operations.
pub mod Keys
pub mod Cache
use gamifykit.Prelude.{
  ℕ, ◌≡◌, Bool, true, false, ◌==◌, if◌then◌else◌, ite, List, [], ◌∷◌, ◌++◌, Option, none, some,
  Result, ok, err,
}
use gamifykit.Prelude.Int.{ℤ, pos, ℤ-discrete}
use gamifykit.Prelude.GoMap.{GoMap, GoSet, put}
use gamifykit.Prelude.Text.{Text, text, text_key, Text-discrete}
use gamifykit.Core.{UserId, Metric, Badge, Time, Error, backend, delta_zero, UserState}

unfoldable pub user_points_key : UserId → Metric → Text
user_points_key user metric = text "user:" ++ user ++ text ":points:" ++ metric

unfoldable pub user_badges_key : UserId → Text
user_badges_key user = text "user:" ++ user ++ text ":badges"

unfoldable pub user_levels_key : UserId → Metric → Text
user_levels_key user metric = text "user:" ++ user ++ text ":levels:" ++ metric

unfoldable pub user_state_key : UserId → Text
user_state_key user = text "user:" ++ user ++ text ":state"

-- ':'
abbrev pub colon : ℕ
colon = 58

-- The part `current`, if there is one, before the other parts.
abbrev pub add_part : Text → List Text → List Text
add_part [] parts = parts
add_part (c ∷ cs) parts = (c ∷ cs) ∷ parts

-- The loop of `redisKeyParts`, with the part that it is in.
unfoldable pub key_parts_from : Text → Text → List Text
key_parts_from current [] = add_part current []
key_parts_from current (c ∷ key) =
    let at_end = add_part current (key_parts_from [] key) in
    let within = key_parts_from (current ++ c ∷ []) key in if c == colon then at_end else within

unfoldable pub redis_key_parts : Text → List Text
redis_key_parts key = key_parts_from [] key

-- What the store asks of the server. The result of the script may be of another type: `none`.
pub record Server : Type 1 where
  pub State : Type 0
  pub Bytes : Type 0
  pub run_add_points : State → Text → ℤ → Result Text (Option ℤ) × State
  pub sadd : State → Text → Text → Option Text × State
  pub smembers : State → Text → Result Text (List Text)
  pub set_int : State → Text → ℤ → Option Text × State
  pub set_bytes : State → Text → Bytes → Option Text × State
  pub get_int : State → Text → Result Text ℤ
  pub get_bytes : State → Text → Result Text Bytes
  pub del : State → Text → State
  pub keys : State → Text → Result Text (List Text)
  pub marshal : UserState → Result Text Bytes
  pub unmarshal : Bytes → Result Text UserState

-- `len(parts) >= 4 && parts[2] == kind`, and then `parts[3]`.
abbrev pub metric_part : Text → List Text → Option Metric
metric_part kind (_ ∷ _ ∷ k ∷ m ∷ _) = ite (Text-discrete k kind) (some m) none
metric_part kind (_ ∷ _ ∷ _ ∷ []) = none
metric_part kind (_ ∷ _ ∷ []) = none
metric_part kind (_ ∷ []) = none
metric_part kind [] = none

abbrev pub put_all : List Badge → GoSet Badge → GoSet Badge
put_all [] m = m
put_all (b ∷ bs) m = put_all bs (put m b tt)

module _ (server : Server) where
  unfoldable pub invalidate_state_cache : server.State → UserId → server.State
  invalidate_state_cache s user = server.del s (user_state_key user)

  unfoldable pub add_points :
      server.State → Time → UserId → Metric → ℤ → Result Error ℤ × server.State
  add_points s now user metric delta =
      ite (ℤ-discrete delta (pos 0)) (err delta_zero, s)
        (let (result, s') = server.run_add_points s (user_points_key user metric) delta in
          elim result [
            | err e ↦ (err (backend (text "failed to add points: " ++ e)), s')
            | ok total ↦ elim total [
              | none ↦ (err (backend (text "unexpected result type from Redis script")), s')
              | some n ↦ (ok n, invalidate_state_cache s' user)
            ]
          ])

  -- What follows a write: its error, or the removal of the cached state.
  unfoldable pub settle : Text → UserId → Option Text × server.State → Option Error × server.State
  settle what user (some e, s) = (some (backend (what ++ e)), s)
  settle what user (none, s) = (none, invalidate_state_cache s user)

  unfoldable pub award_badge : server.State → Time → UserId → Badge → Option Error × server.State
  award_badge s now user badge =
      settle (text "failed to award badge: ") user (server.sadd s (user_badges_key user) badge)

  unfoldable pub set_level : server.State → Time → UserId → Metric → ℤ → Option Error × server.State
  set_level s now user metric level =
      settle (text "failed to set level: ") user
        (server.set_int s (user_levels_key user metric) level)

  unfoldable pub get_cached_state : server.State → UserId → Result Text UserState
  get_cached_state s user = elim (server.get_bytes s (user_state_key user)) [
    | err e ↦ err e
    | ok bytes ↦ server.unmarshal bytes
  ]

  unfoldable pub update_state_cache : server.State → UserId → UserState → Option Text × server.State
  update_state_cache s user state = elim (server.marshal state) [
    | err e ↦ (some e, s)
    | ok bytes ↦ server.set_bytes s (user_state_key user) bytes
  ]

  -- A loop over keys: a key that is not of the kind, or whose value is no number, is passed over.
  unfoldable pub read_keys : Text → server.State → List Text → GoMap Metric ℤ → GoMap Metric ℤ
  read_keys kind s [] m = m
  read_keys kind s (key ∷ keys) m = elim (metric_part kind (redis_key_parts key)) [
    | none ↦ read_keys kind s keys m
    | some metric ↦ elim (server.get_int s key) [
      | err _ ↦ read_keys kind s keys m
      | ok n ↦ read_keys kind s keys (put m metric n)
    ]
  ]

  abbrev pub read_badges : server.State → UserId → GoSet Badge
  read_badges s user = elim (server.smembers s (user_badges_key user)) [
    | err _ ↦ []
    | ok badges ↦ put_all badges []
  ]

  abbrev pub read_levels : server.State → UserId → GoMap Metric ℤ
  read_levels s user = elim (server.keys s (text "user:" ++ user ++ text ":levels:*")) [
    | err _ ↦ []
    | ok keys ↦ read_keys (text "levels") s keys []
  ]

  unfoldable pub build_state_from_keys : server.State → Time → UserId → Result Error UserState
  build_state_from_keys s now user =
      elim (server.keys s (text "user:" ++ user ++ text ":points:*")) [
        | err e ↦ err (backend (text "failed to get points keys: " ++ e))
        | ok keys ↦ ok (record {
          user_id = user;
          points = read_keys (text "points") s keys [];
          badges = read_badges s user;
          levels = read_levels s user;
          updated = now;
        })
      ]

  -- `GetState` without a cached state: the state is cached if that works.
  unfoldable pub rebuild : server.State → Time → UserId → Result Error UserState × server.State
  rebuild s now user = elim (build_state_from_keys s now user) [
    | err e ↦ (err e, s)
    | ok state ↦ (ok state, (update_state_cache s user state).1)
  ]

  unfoldable pub get_state : server.State → Time → UserId → Result Error UserState × server.State
  get_state s now user = elim (get_cached_state s user) [
    | ok cached ↦ (ok cached, s)
    | err _ ↦ rebuild s now user
  ]
