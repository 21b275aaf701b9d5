-- ===== src/Tests/HttpTests.antt =====
-- The theorems on api/httpapi/ at concrete inputs.
use gamifykit.Prelude.{
  ℕ, ◌≡◌, ◌≢◌, some, ◌⊎◌, inl, ◌+◌, ◌*◌, ◌/◌, refl, arith, true, false, Option, none, [], ◌∷◌, List,
}
use gamifykit.Prelude.Int.{ℤ, pos, negsuc, sub_ℕ, pos_part, neg_part, ◌+ℤ◌, ◌-ℤ◌, ltb_ℤ, int_laws}
use gamifykit.Prelude.GoMap.{get}
use gamifykit.Prelude.Text.{Text, text, text_key}
use gamifykit.Core.{UserId, metric_xp}
use gamifykit.Core.Rules.{default_rule_engine}
use gamifykit.Core.Events.{Event}
use gamifykit.Engine.Bus.{new_event_bus, dispatch_sync_mode}
use gamifykit.Engine.Service.{GamifyService}
use gamifykit.Http.Types.{Request, Response, no_body, method_post}
use gamifykit.Http.Paths.{split, slash, path_of, split-path_of}
use gamifykit.Http.RateLimit.{Rates, RateLimiter}
use gamifykit.Http.RateLimit.Burst.{allowed_of, smaller, allowed_of_new}
use gamifykit.Http.Auth.{extract_api_key}
use gamifykit.Http.Users.{users_handler, health_check, parse_int}
use gamifykit.Core.UserName.{normalize_user_id}
use gamifykit.Http.Users.Asking.{UserCall, ask_points, Asks, Answered, IsRefused}
use gamifykit.Http.Users.Outcomes.{users_handler-Served}
use gamifykit.Http.Users.Health.{probe, probed, health_check_files}
use gamifykit.Http.Mux.{Options, Server, new_mux}
use gamifykit.Http.Mux.Layers.{new_mux_closed}
use gamifykit.Stores.Memory.{memory_storage}
use gamifykit.Tests.Instances.{ascii_table, whole_floats, in_entry_order}

-- Whole numbers for float64, and whole minutes.
abbrev product : ℤ → ℤ → ℤ
product a b =
    sub_ℕ (pos_part a * pos_part b + neg_part a * neg_part b)
      (pos_part a * neg_part b + neg_part a * pos_part b)

abbrev whole_minutes : ℤ → ℤ
whole_minutes (pos n) = pos (n / 60000000000)
whole_minutes (negsuc n) = pos 0

no_refill : (n : ℕ) (rpm : ℤ) → pos n +ℤ product (whole_minutes (pos 0)) rpm ≡ pos n
unfolding ◌+ℤ◌
no_refill n rpm = ground arith

abbrev whole_rates : Rates
whole_rates = record {
  Float = ℤ;
  of_int = λ n. n;
  plus = λ a b. a +ℤ b;
  minus = λ a b. a -ℤ b;
  times = product;
  less = ltb_ℤ;
  minutes = whole_minutes;
  minus_one = λ n h. omega int_laws;
  less_exact = λ m n h k. ground arith;
  no_time = λ n rpm h. no_refill n rpm;
}

split-path_of_example :
    split (path_of (text "users" ∷ text "alice" ∷ [])) slash ≡ text "users" ∷ text "alice" ∷ []
split-path_of_example = split-path_of (text "users" ∷ text "alice" ∷ []) (ground arith)

abbrev limiter : RateLimiter whole_rates
limiter = record { rpm = pos 60; burst = pos 2; buckets = [] }

allowed_of_new_example :
    allowed_of whole_rates 3 limiter 7 (text "10.0.0.1") ≡ smaller whole_rates 3 2
unfolding get
allowed_of_new_example =
    allowed_of_new whole_rates (pos 60) 2 (omega arith) 3 7 (text "10.0.0.1") limiter (omega arith)
      refl refl refl

abbrev api_service : GamifyService memory_storage (List Event)
api_service = record {
  storage = [];
  bus = new_event_bus in_entry_order dispatch_sync_mode;
  env = [];
}

abbrev request : Request
request = record {
  method = method_post;
  path = text "/users/alice/points";
  query_metric = [];
  query_delta = text "50";
  authorization = [];
  x_api_key = [];
  remote_addr = text "10.0.0.1:4711";
}

abbrev answer : Response × GamifyService memory_storage (List Event)
answer = users_handler (default_rule_engine whole_floats) ascii_table [] api_service 7 request

abbrev parts : List Text
parts = text "users" ∷ text "alice" ∷ text "points" ∷ []

users_handler-Served_example :
    ((c : UserCall)
      → Asks ascii_table request parts c
      → Answered (default_rule_engine whole_floats) ascii_table api_service 7 c answer.0 answer.1)
    × (((c : UserCall) → ¬ Asks ascii_table request parts c)
        → IsRefused (default_rule_engine whole_floats) ascii_table api_service answer.0 answer.1)
    × (answer.0.status ≢ 200 → (answer.1.bus ≡ api_service.bus) × (answer.1.env ≡ api_service.env))
users_handler-Served_example =
    users_handler-Served (default_rule_engine whole_floats) ascii_table api_service 7 request []
      parts answer.0 answer.1 refl (ground arith) refl

-- What the request above asks for.
points_asked : Asks ascii_table request parts (ask_points (text "alice") metric_xp (pos 50))
unfolding normalize_user_id gamifykit.Core.UserName.trim_space gamifykit.Core.UserName.lower
    parse_int gamifykit.Http.Users.digits gamifykit.Http.Users.digits_from
    gamifykit.Core.UserName.is_space
points_asked = (refl, (text "users", text "alice", [], refl, refl), refl, inl (refl, refl))

health_check_files_example :
    ((health_check api_service 7).0.status ≡ 200)
    × (get (health_check api_service 7).1.storage probe ≡ some (probed (get [] probe) 7))
    × ((v : UserId) → v ≢ probe → get (health_check api_service 7).1.storage v ≡ get [] v)
    × ((health_check api_service 7).1.bus ≡ api_service.bus)
    × ((health_check api_service 7).1.env ≡ api_service.env)
health_check_files_example = health_check_files api_service 7

abbrev keyed : Options
keyed = record {
  path_prefix = [];
  allow_cors_origin = [];
  api_keys = text "sesame" ∷ [];
  rate_limit_enabled = false;
  rate_limit_rpm = pos 0;
  rate_limit_burst = pos 0;
}

abbrev server : Server whole_rates memory_storage (List Event)
server = record { service = api_service; limiter = none }

abbrev no_host : Text → Option Text
no_host address = none

abbrev no_socket : Request → Response
no_socket r = record { status = 400; headers = []; body = no_body }

new_mux_closed_example :
    (((new_mux whole_rates ascii_table no_host no_socket
          (default_rule_engine whole_floats)
          keyed
          true
          7
          request
          server).0.status
        ≡ 401)
      ⊎ ((new_mux whole_rates ascii_table no_host no_socket
            (default_rule_engine whole_floats)
            keyed
            true
            7
            request
            server).0.status
          ≡ 429))
    × ((new_mux whole_rates ascii_table no_host no_socket
          (default_rule_engine whole_floats)
          keyed
          true
          7
          request
          server).1.service
        ≡ api_service)
unfolding extract_api_key gamifykit.Http.Auth.has_prefix gamifykit.Core.UserName.lower
new_mux_closed_example =
    new_mux_closed whole_rates ascii_table no_host no_socket (default_rule_engine whole_floats)
      keyed true 7 request server (ground arith) (inl refl)
