-- ===== src/Http/Mux/Layers.antt =====
-- What the layers of `NewMux` keep from the service.
use gamifykit.Prelude.{◌≡◌, ◌≢◌, ◌⊎◌, inl, inr, arith, Bool, Option-cases, List, [], Option, some}
use gamifykit.Prelude.Text.{Text, text_key}
use gamifykit.Core.{Time}
use gamifykit.Core.UserName.{CaseTable}
use gamifykit.Core.Rules.{Rule}
use gamifykit.Engine.Storage.{Storage}
use gamifykit.Http.Types.{Request, Response, write_error}
use gamifykit.Http.RateLimit.{Rates, allow}
use gamifykit.Http.Auth.{extract_api_key, allowed_keys-IsListed, IsListed, with_api_key_auth}
use gamifykit.Http.Mux.{
  Options, Server, client_key, cors_layer, auth_layer, with_rate_limit, new_mux,
}

-- With a key that is empty or not in the list the next handler does not run.
pub with_api_key_auth_closed :
    {S : Type 0} (case_table : CaseTable) (keys : List Text) (next : Request → S → Response × S)
    (r : Request) (s : S)
    → ((extract_api_key case_table r ≡ []) ⊎ (¬ IsListed (extract_api_key case_table r) keys))
    → ((with_api_key_auth case_table keys next r s).0.status ≡ 401)
      × ((with_api_key_auth case_table keys next r s).1 ≡ s)
unfolding with_api_key_auth write_error
with_api_key_auth_closed case_table keys next r s h =
    ground (arith, allowed_keys-IsListed (extract_api_key case_table r) keys)

module _ (rates : Rates) (case_table : CaseTable) (host : Text → Option Text)
    (websocket : Request → Response) {S : Storage} {W : Type 0} (rules : Rule) where
  auth_layer_closed :
      (opts : Options) (has_hub : Bool) (now : Time) (r : Request) (s : Server rates S W)
      → opts.api_keys ≢ []
      → ((extract_api_key case_table r ≡ [])
          ⊎ (¬ IsListed (extract_api_key case_table r) opts.api_keys))
      → let out = auth_layer rates case_table host websocket rules opts has_hub now r s in
        (out.0.status ≡ 401) × (out.1 ≡ s)
  unfolding auth_layer
  auth_layer_closed opts has_hub now r s h closed = ground (
    arith,
    with_api_key_auth_closed case_table opts.api_keys
        (cors_layer rates case_table host websocket rules opts has_hub now) r s closed,
  )

  -- Where API keys are configured, a request without one, or with one that is not in the list,
  -- never reaches the service: it is answered with 401, or with 429 by the limiter, and leaves the
  -- service, its bus and its storage as they were.
  pub new_mux_closed :
      (opts : Options) (has_hub : Bool) (now : Time) (r : Request) (s : Server rates S W)
      → opts.api_keys ≢ []
      → ((extract_api_key case_table r ≡ [])
          ⊎ (¬ IsListed (extract_api_key case_table r) opts.api_keys))
      → let out = new_mux rates case_table host websocket rules opts has_hub now r s in
        ((out.0.status ≡ 401) ⊎ (out.0.status ≡ 429)) × (out.1.service ≡ s.service)
  unfolding new_mux auth_layer with_rate_limit write_error
  new_mux_closed opts has_hub now r s h closed = elim (Option-cases s.limiter) [
    | inl e ↦
        let (status, same) = auth_layer_closed opts has_hub now r s h closed in
        ground (arith, status, same)
    | inr (l, e) ↦
        let l' = (allow rates l now (client_key case_table host r)).1 in
        let (status, same) =
          auth_layer_closed opts has_hub now r (record s { limiter = some l' }) h closed in
        ground (arith, status, same)
  ]
