-- ===== src/Tests/RedisTests.antt =====
-- The theorems on adapters/redis/ at concrete inputs, on a server in memory.
use gamifykit.Prelude.{
  ℕ, ◌≡◌, ◌≢◌, refl, ap, sym, ◌∙◌, arith, Bool, true, false, ◌==◌, if◌then◌else◌, List, [], ◌∷◌,
  map, Option, none, some, Result, ok, err,
}
use gamifykit.Prelude.Int.{ℤ, pos, add64}
use gamifykit.Prelude.GoMap.{GoMap, get, get_or, put, delete, get-put, get-delete}
use gamifykit.Prelude.Text.{Text, text, text_key}
use gamifykit.Core.{UserId, UserState, metric_xp, metric_points}
use gamifykit.Stores.Redis.{
  Server, add_points, get_state, rebuild, user_points_key, user_state_key, read_keys,
}
use gamifykit.Stores.Redis.Keys.{IsName, AreNames, put_totals, read_keys-put_totals}
use gamifykit.Stores.Redis.Cache.{Caches, wrote_points, get_state-rebuild}

record Values : Type 0 where
  ints : GoMap Text ℤ
  sets : GoMap Text (List Text)
  states : GoMap Text UserState

-- A pattern with nothing but one star, which is its end.
abbrev matches : Text → Text → Bool
matches [] t = false
matches (c ∷ p) t =
    let star = c == 42 in
    elim t [
      | [] ↦ star
      | d ∷ rest ↦ if star then true else (if c == d then matches p rest else false)
    ]

abbrev matching : Text → GoMap Text ℤ → List Text
matching p [] = []
matching p ((k, _) ∷ m) = if matches p k then k ∷ matching p m else matching p m

abbrev or_nil : {A : Type 0} → Option A → Result Text A
or_nil none = err (text "redis: nil")
or_nil (some a) = ok a

abbrev value_server : Server
value_server = record {
  State = Values;
  Bytes = UserState;
  run_add_points = λ s k d. (
    ok (some (add64 (get_or s.ints k (pos 0)) d)),
    record s { ints = put s.ints k (add64 (get_or s.ints k (pos 0)) d) },
  );
  sadd = λ s k b. (none, record s { sets = put s.sets k (b ∷ get_or s.sets k []) });
  smembers = λ s k. ok (get_or s.sets k []);
  set_int = λ s k n. (none, record s { ints = put s.ints k n });
  set_bytes = λ s k b. (none, record s { states = put s.states k b });
  get_int = λ s k. or_nil (get s.ints k);
  get_bytes = λ s k. or_nil (get s.states k);
  del =
      λ s k. record { ints = delete s.ints k; sets = delete s.sets k; states = delete s.states k };
  keys = λ s p. ok (matching p s.ints);
  marshal = λ st. ok st;
  unmarshal = λ b. ok b;
}

value_server-Caches : Caches value_server
value_server-Caches = record {
  del_works = λ s k. (text "redis: nil", ground (arith, get-delete s.states k k));
  set_works = λ s k b h. ground (arith, get-put s.states k k b);
  unmarshal-marshal = λ st b h. sym h;
}

abbrev alice : UserId
alice = text "alice"

abbrev values : Values
values = record {
  ints =
      (user_points_key alice metric_xp, pos 40) ∷ (user_points_key alice metric_points, pos 2) ∷ [];
  sets = [];
  states = [];
}

alice_named : IsName alice
alice_named = (
  λ e. absurd (ground (arith, e)),
  (
    λ e. omega arith,
    (λ e. omega arith, (λ e. omega arith, (λ e. omega arith, (λ e. omega arith, tt)))),
  ),
)

metrics_named : AreNames (metric_xp ∷ metric_points ∷ [])
metrics_named = (
  (λ e. absurd (ground (arith, e)), (λ e. omega arith, (λ e. omega arith, tt))),
  (
    (
      λ e. absurd (ground (arith, e)),
      (
        λ e. omega arith,
        (
          λ e. omega arith,
          (λ e. omega arith, (λ e. omega arith, (λ e. omega arith, (λ e. omega arith, tt)))),
        ),
      ),
    ),
    tt,
  ),
)

read_keys-put_totals_example :
    read_keys value_server
      (text "points")
      values
      (map (user_points_key alice) (metric_xp ∷ metric_points ∷ []))
      []
    ≡ put_totals value_server values alice (metric_xp ∷ metric_points ∷ []) []
read_keys-put_totals_example =
    read_keys-put_totals value_server values alice (metric_xp ∷ metric_points ∷ []) [] alice_named
      metrics_named

abbrev after_gain : Values
after_gain = (add_points value_server values 7 alice metric_xp (pos 5)).1

gain_written : add_points value_server values 7 alice metric_xp (pos 5) ≡ (ok (pos 45), after_gain)
unfolding add_points gamifykit.Prelude.Int.ℤ-discrete gamifykit.Prelude.ℕ_discrete add64
    gamifykit.Prelude.Int.wrap64 gamifykit.Prelude.Int.◌+ℤ◌ get gamifykit.Prelude.Text.Text-discrete
    user_points_key gamifykit.Stores.Redis.invalidate_state_cache
gain_written = refl

get_state-rebuild_example :
    get_state value_server after_gain 9 alice ≡ rebuild value_server after_gain 9 alice
get_state-rebuild_example =
    get_state-rebuild value_server value_server-Caches alice after_gain
      (wrote_points values 7 metric_xp (pos 5) (pos 45) gain_written) 9
