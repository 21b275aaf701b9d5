-- ===== src/Http/Mux.antt =====
-- `NewMux` of api/httpapi/httpapi.go: the routes, and the layers around them. Of the route table of
-- net/http it has what the patterns use: an exact path, and a prefix that ends in a slash; its
-- redirects and the text of its own 404 are left out. The
-- websocket handler, and the host of a remote address, are parameters.
pub mod Layers
use gamifykit.Prelude.{ℕ, Bool, true, false, ◌&&◌, List, [], ◌∷◌, Option, none, some, if◌then◌else◌}
use gamifykit.Prelude.Int.{ℤ, pos, ltb_ℤ}
use gamifykit.Prelude.GoMap.{GoMap, put}
use gamifykit.Prelude.Text.{Text, text, text_key}
use gamifykit.Core.{Time}
use gamifykit.Core.UserName.{CaseTable}
use gamifykit.Core.Rules.{Rule}
use gamifykit.Config.Checks.{is_empty, same}
use gamifykit.Engine.Storage.{Storage}
use gamifykit.Engine.Service.{GamifyService}
use gamifykit.Http.Types.{Request, Response, no_body, write_error, method_options}
use gamifykit.Http.Paths.{with_prefix}
use gamifykit.Http.RateLimit.{Rates, RateLimiter, new_rate_limiter, allow}
use gamifykit.Http.Auth.{has_prefix, extract_api_key, with_api_key_auth}
use gamifykit.Http.Users.{users_handler, health_check}

pub record Options : Type 0 where
  pub path_prefix : Text
  pub allow_cors_origin : Text
  pub api_keys : List Text
  pub rate_limit_enabled : Bool
  pub rate_limit_rpm : ℤ
  pub rate_limit_burst : ℤ

-- The headers that are set before the next handler writes its own.
abbrev under_headers : GoMap Text Text → GoMap Text Text → GoMap Text Text
under_headers first [] = first
under_headers first ((k, v) ∷ later) = under_headers (put first k v) later

abbrev cors_headers : Text → GoMap Text Text
cors_headers origin =
    (text "Access-Control-Allow-Origin", origin) ∷ (text "Vary", text "Origin") ∷ []

unfoldable pub with_cors :
    {S : Type 0} → Text → (Request → S → Response × S) → Request → S → Response × S
with_cors origin next r s =
    if same r.method method_options
    then (
      record {
        status = 204;
        headers = under_headers (cors_headers origin) (
            (text "Access-Control-Allow-Methods", text "GET,POST,OPTIONS")
            ∷ (text "Access-Control-Allow-Headers", text "Content-Type,Authorization")
            ∷ []);
        body = no_body;
      },
      s,
    )
    else (let (resp, s') = next r s in
        (record resp { headers = under_headers (cors_headers origin) resp.headers }, s'))

-- `host` is the host that `net.SplitHostPort` finds in an address.
unfoldable pub client_key : CaseTable → (Text → Option Text) → Request → Text
client_key case_table host r =
    let key = extract_api_key case_table r in
    if is_empty key then (elim (host r.remote_addr) [ none ↦ r.remote_addr | some h ↦ h ]) else key

-- The service, and the limiter where there is one.
pub record Server (rates : Rates) (S : Storage) (W : Type 0) : Type 0 where
  pub service : GamifyService S W
  pub limiter : Option (RateLimiter rates)

-- The limiter that `NewMux` makes.
unfoldable pub limiter_of : (rates : Rates) → Options → Option (RateLimiter rates)
limiter_of rates opts =
    if opts.rate_limit_enabled
      && (ltb_ℤ (pos 0) opts.rate_limit_rpm && ltb_ℤ (pos 0) opts.rate_limit_burst)
    then some (new_rate_limiter rates opts.rate_limit_rpm opts.rate_limit_burst)
    else none

module _ (rates : Rates) (case_table : CaseTable) (host : Text → Option Text)
    (websocket : Request → Response) {S : Storage} {W : Type 0} (rules : Rule) where
  unfoldable pub with_rate_limit :
      RateLimiter rates
      → Time
      → (Request → Server rates S W → Response × Server rates S W)
      → Request
      → Server rates S W
      → Response × Server rates S W
  with_rate_limit l now next r s =
      let (through, l') = allow rates l now (client_key case_table host r) in
      let s' : Server rates S W = record s { limiter = some l' } in
      if through
      then next r s'
      else (write_error 429 (text "rate_limited") (text "too many requests"), s')

  unfoldable pub serve_mux :
      Options → Bool → Time → Request → Server rates S W → Response × Server rates S W
  serve_mux opts has_hub now r s =
      if same r.path (with_prefix opts.path_prefix (text "/healthz"))
      then (let (resp, service) = health_check s.service now in
          (resp, record s { service = service }))
      else (if has_hub && same r.path (with_prefix opts.path_prefix (text "/ws"))
          then (websocket r, s)
          else (if has_prefix r.path (with_prefix opts.path_prefix (text "/users/"))
              then (let (resp, service) =
                    users_handler rules case_table opts.path_prefix s.service now r in
                  (resp, record s { service = service }))
              else (record { status = 404; headers = []; body = no_body }, s)))

  unfoldable pub cors_layer :
      Options → Bool → Time → Request → Server rates S W → Response × Server rates S W
  cors_layer opts has_hub now =
      if is_empty opts.allow_cors_origin
      then serve_mux opts has_hub now
      else with_cors opts.allow_cors_origin (serve_mux opts has_hub now)

  unfoldable pub auth_layer :
      Options → Bool → Time → Request → Server rates S W → Response × Server rates S W
  auth_layer opts has_hub now = elim (opts.api_keys) [
    | [] ↦ cors_layer opts has_hub now
    | k ∷ ks ↦ with_api_key_auth case_table (k ∷ ks) (cors_layer opts has_hub now)
  ]

  -- The handler that `NewMux` returns.
  unfoldable pub new_mux :
      Options → Bool → Time → Request → Server rates S W → Response × Server rates S W
  new_mux opts has_hub now r s = elim (s.limiter) [
    | none ↦ auth_layer opts has_hub now r s
    | some l ↦ with_rate_limit l now (auth_layer opts has_hub now) r s
  ]
