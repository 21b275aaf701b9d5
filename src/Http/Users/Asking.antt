-- ===== src/Http/Users/Asking.antt =====
-- What a request asks of the service, by its method, the parts of its path and its query, and what
-- it is to be answered.
use gamifykit.Prelude.{
  ◌≡◌, ◌≢◌, ◌⊎◌, inl, inr, refl, sym, ◌∙◌, arith, List, [], ◌∷◌, Option, none, some, Result, ok,
  err, if◌then◌else◌,
}
use gamifykit.Prelude.Int.{ℤ}
use gamifykit.Prelude.Text.{Text, text}
use gamifykit.Core.{UserId, Metric, Badge, Time, UserState, Error, metric_xp}
use gamifykit.Core.UserName.{CaseTable, normalize_user_id}
use gamifykit.Core.BadgeName.{validate_badge_id}
use gamifykit.Core.Rules.{Rule}
use gamifykit.Config.Checks.{is_empty}
use gamifykit.Engine.Storage.{Storage}
use gamifykit.Engine.Service.{GamifyService, add_points, award_badge, award_badge_to, get_state}
use gamifykit.Engine.Service.Outcomes.{add_points_error_silent}
use gamifykit.Http.Types.{
  Request, Response, total_body, ok_body, state_body, write_json, write_error, method_get,
  method_post,
}
use gamifykit.Http.Users.{parse_int, points_answer, badge_answer, state_answer}

-- What a request may ask of the service.
pub data UserCall : Type 0 where
  ask_points : UserId → Metric → ℤ → UserCall
  ask_badge : UserId → Badge → UserCall
  ask_state : UserId → UserCall

-- The request, whose path has the parts `parts`, asks for this call: a POST to
-- users/{id}/points adds the delta of the query to its metric, which is XP where it is empty; a
-- POST to users/{id}/badges/{badge} awards the badge; a GET of users/{id} reads. The id is
-- normalised, the delta an int64, the badge valid.
abbrev pub Asks : CaseTable → Request → List Text → UserCall → Type 0
Asks case_table r parts (ask_points user metric delta) =
    (r.method ≡ method_post)
    × ((first : Text) × (id : Text) × (rest : List Text) × (parts
          ≡ first ∷ id ∷ text "points" ∷ rest)
        × (normalize_user_id case_table id ≡ ok user))
    × (parse_int r.query_delta ≡ some delta)
    × (((r.query_metric ≡ []) × (metric ≡ metric_xp))
        ⊎ ((r.query_metric ≢ []) × (metric ≡ r.query_metric)))
Asks case_table r parts (ask_badge user badge) =
    (r.method ≡ method_post)
    × ((first : Text) × (id : Text) × (rest : List Text) × (parts
          ≡ first ∷ id ∷ text "badges" ∷ badge ∷ rest)
        × (normalize_user_id case_table id ≡ ok user))
    × (validate_badge_id badge ≡ none)
Asks case_table r parts (ask_state user) =
    (r.method ≡ method_get)
    × ((first : Text) × (id : Text) × (rest : List Text) × (parts ≡ first ∷ id ∷ rest)
        × (normalize_user_id case_table id ≡ ok user))

-- The metric of the query, or XP.
abbrev pub metric_of : Request → Metric
metric_of r = if is_empty r.query_metric then metric_xp else r.query_metric

pub metric_of_lem :
    (r : Request)
    → ((r.query_metric ≡ []) × (metric_of r ≡ metric_xp))
      ⊎ ((r.query_metric ≢ []) × (metric_of r ≡ r.query_metric))
metric_of_lem r = pick r.query_metric
  where
    pick :
        (q : Text)
        → ((q ≡ []) × ((if is_empty q then metric_xp else q) ≡ metric_xp))
          ⊎ ((q ≢ []) × ((if is_empty q then metric_xp else q) ≡ q))
    pick [] = inl (refl, refl)
    pick (c ∷ q) = inr (λ e. cc, refl)

pub metric_is :
    (r : Request) (metric : Metric)
    → ((r.query_metric ≡ []) × (metric ≡ metric_xp))
      ⊎ ((r.query_metric ≢ []) × (metric ≡ r.query_metric))
    → metric ≡ metric_of r
metric_is r metric m = elim (metric_of_lem r) [
  | inl (e, k) ↦ elim m [ inl (_, l) ↦ l ∙ sym k | inr (n, _) ↦ absurd (n e) ]
  | inr (n, k) ↦ elim m [ inl (e, _) ↦ absurd (n e) | inr (_, l) ↦ l ∙ sym k ]
]

pub Asks-method :
    (case_table : CaseTable) (r : Request) (parts : List Text) (c : UserCall)
    → Asks case_table r parts c
    → (r.method ≡ method_get) ⊎ (r.method ≡ method_post)
Asks-method case_table r parts (ask_points u m d) a = inr a.0
Asks-method case_table r parts (ask_badge u b) a = inr a.0
Asks-method case_table r parts (ask_state u) a = inl a.0

module _ {S : Storage} {W : Type 0} (rules : Rule) (case_table : CaseTable) where
  -- The answer and the state are those of the call, made once.
  abbrev pub Answered : GamifyService S W → Time → UserCall → Response → GamifyService S W → Type 0
  Answered g now (ask_points user metric delta) resp g' =
      ((total : ℤ) × (add_points rules case_table g now user metric delta ≡ (ok total, g'))
        × (resp.status ≡ 200)
        × (resp.body ≡ total_body total))
      ⊎ ((e : Error) × (add_points rules case_table g now user metric delta ≡ (err e, g'))
          × (resp.status ≡ 400))
  Answered g now (ask_badge user badge) resp g' =
      ((award_badge case_table g now user badge ≡ (none, g'))
        × (resp.status ≡ 200)
        × (resp.body ≡ ok_body))
      ⊎ ((e : Error) × (award_badge case_table g now user badge ≡ (some e, g'))
          × (resp.status ≡ 400))
  Answered g now (ask_state user) resp g' =
      ((st : UserState) × (get_state g now user ≡ (ok st, g'))
        × (resp.status ≡ 200)
        × (resp.body ≡ state_body st))
      ⊎ ((e : Error) × (get_state g now user ≡ (err e, g')) × (resp.status ≡ 500))

  -- A client error, and nothing was called.
  abbrev pub IsRefused : GamifyService S W → Response → GamifyService S W → Type 0
  IsRefused g resp g' = ((resp.status ≡ 400) ⊎ (resp.status ≡ 404)) × (g' ≡ g)

  pub points-Answered :
      (g : GamifyService S W) (now : Time) (user : UserId) (metric : Metric) (delta : ℤ)
      (result : Result Error ℤ) (g' : GamifyService S W)
      → add_points rules case_table g now user metric delta ≡ (result, g')
      → Answered g now (ask_points user metric delta) (points_answer result) g'
  unfolding write_error write_json
  points-Answered g now user metric delta (ok total) g' h = inl (total, h, refl, refl)
  points-Answered g now user metric delta (err e) g' h = inr (e, h, refl)

  pub badge-Answered :
      (g : GamifyService S W) (now : Time) (user : UserId) (badge : Badge) (failed : Option Error)
      (g' : GamifyService S W)
      → award_badge case_table g now user badge ≡ (failed, g')
      → Answered g now (ask_badge user badge) (badge_answer failed) g'
  unfolding write_error write_json
  badge-Answered g now user badge none g' h = inl (h, refl, refl)
  badge-Answered g now user badge (some e) g' h = inr (e, h, refl)

  pub state-Answered :
      (g : GamifyService S W) (now : Time) (user : UserId) (found : Result Error UserState)
      (g' : GamifyService S W)
      → get_state g now user ≡ (found, g')
      → Answered g now (ask_state user) (state_answer found) g'
  unfolding write_error write_json
  state-Answered g now user (ok st) g' h = inl (st, h, refl, refl)
  state-Answered g now user (err e) g' h = inr (e, h, refl)

  award_badge_error_silent :
      (g : GamifyService S W) (now : Time) (user : UserId) (badge : Badge) (e : Error)
      (g' : GamifyService S W)
      → award_badge case_table g now user badge ≡ (some e, g')
      → (g'.bus ≡ g.bus) × (g'.env ≡ g.env)
  unfolding award_badge award_badge_to
  award_badge_error_silent g now user badge e g' h = ground arith

  get_state_silent :
      (g : GamifyService S W) (now : Time) (user : UserId) (found : Result Error UserState)
      (g' : GamifyService S W)
      → get_state g now user ≡ (found, g')
      → (g'.bus ≡ g.bus) × (g'.env ≡ g.env)
  unfolding get_state
  get_state_silent g now user found g' h = (ground arith, ground arith)

  -- A call that is not answered with 200 has published nothing.
  pub Answered-silent :
      (g : GamifyService S W) (now : Time) (c : UserCall) (resp : Response) (g' : GamifyService S W)
      → Answered g now c resp g'
      → resp.status ≢ 200
      → (g'.bus ≡ g.bus) × (g'.env ≡ g.env)
  Answered-silent g now (ask_points u m d) resp g' (inl (_, _, s, _)) h = absurd (h s)
  Answered-silent g now (ask_points u m d) resp g' (inr (e, k, _)) h =
      add_points_error_silent rules case_table g now u m d e g' k
  Answered-silent g now (ask_badge u b) resp g' (inl (_, s, _)) h = absurd (h s)
  Answered-silent g now (ask_badge u b) resp g' (inr (e, k, _)) h =
      award_badge_error_silent g now u b e g' k
  Answered-silent g now (ask_state u) resp g' (inl (_, _, s, _)) h = absurd (h s)
  Answered-silent g now (ask_state u) resp g' (inr (e, k, _)) h =
      get_state_silent g now u (err e) g' k
