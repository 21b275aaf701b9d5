-- ===== src/Http/Users/Routing.antt =====
-- A request that asks for a call of the service is routed to it.
use gamifykit.Prelude.{
  ℕ, ◌≡◌, ◌≢◌, ◌⊎◌, inl, inr, refl, ap, sym, subst, ◌∙◌, arith, Bool, true, false, not, ◌&&◌, List,
  [], ◌∷◌, ◌++◌, Option, Option-cases, none, some, Result, Result-cases, ok, err, if◌then◌else◌,
}
use gamifykit.Prelude.Int.{ℤ}
use gamifykit.Prelude.Text.{Text, text}
use gamifykit.Core.{Metric, Time, metric_xp}
use gamifykit.Core.UserName.{CaseTable, normalize_user_id}
use gamifykit.Core.BadgeName.{validate_badge_id}
use gamifykit.Core.Rules.{Rule}
use gamifykit.Config.Checks.{same}
use gamifykit.Engine.Storage.{Storage}
use gamifykit.Engine.Service.{GamifyService, add_points, award_badge, get_state}
use gamifykit.Http.Types.{Request, method_get, method_post}
use gamifykit.Http.Users.{
  route_parts, parse_int, points_answer, badge_answer, state_answer, post_points, post_badge,
  get_user, post_user, route_user,
}
use gamifykit.Http.Users.Asking.{
  UserCall, ask_points, ask_badge, ask_state, Asks, metric_is, Answered, points-Answered,
  badge-Answered, state-Answered,
}

get_no_post : same method_get method_post ≡ false
unfolding gamifykit.Prelude.Text.Text-discrete
get_no_post = refl

module _ {S : Storage} {W : Type 0} (rules : Rule) (case_table : CaseTable) where
  -- One request and one state.
  module _ (g : GamifyService S W) (now : Time) (r : Request) where
    -- What is asked is what the routes come to.
    routed_post :
        (first id user : Text) (rest : List Text)
        → r.method ≡ method_post
        → normalize_user_id case_table id ≡ ok user
        → route_parts rules case_table g now r (first ∷ id ∷ rest)
          ≡ post_user rules case_table g now r user rest
    unfolding route_user
    routed_post first id user rest post named = ground (arith, named, post)

    routed_points :
        (user : Text) (rest : List Text) (metric : Metric) (delta : ℤ)
        → parse_int r.query_delta ≡ some delta
        → ((r.query_metric ≡ []) × (metric ≡ metric_xp))
          ⊎ ((r.query_metric ≢ []) × (metric ≡ r.query_metric))
        → post_user rules case_table g now r user (text "points" ∷ rest) ≡ (
          points_answer (add_points rules case_table g now user metric delta).0,
          (add_points rules case_table g now user metric delta).1,
        )
    unfolding post_user post_points gamifykit.Prelude.Text.Text-discrete
    routed_points user rest metric delta d m = rw (metric_is r metric m, d, post_points) refl

    routed_badge :
        (user badge : Text) (rest : List Text)
        → validate_badge_id badge ≡ none
        → post_user rules case_table g now r user (text "badges" ∷ badge ∷ rest) ≡ (
          badge_answer (award_badge case_table g now user badge).0,
          (award_badge case_table g now user badge).1,
        )
    unfolding post_user post_badge gamifykit.Prelude.Text.Text-discrete
    routed_badge user badge rest v = rw (v, post_badge) refl

    routed_get :
        (first id user : Text) (rest : List Text)
        → r.method ≡ method_get
        → normalize_user_id case_table id ≡ ok user
        → route_parts rules case_table g now r (first ∷ id ∷ rest)
          ≡ (state_answer (get_state g now user).0, (get_state g now user).1)
    unfolding route_user get_user
    routed_get first id user rest get named =
        let other : same r.method method_post ≡ false = rw get get_no_post in
        rw (named, other, route_user) refl

    pub Asks-Answered :
        (parts : List Text) (c : UserCall)
        → Asks case_table r parts c
        → Answered rules case_table g now c
            (route_parts rules case_table g now r parts).0
            (route_parts rules case_table g now r parts).1
    Asks-Answered parts (ask_points user metric delta) (post, (first, id, rest, e, named), d, m) =
        rw
          (
            e,
            routed_post first id user (text "points" ∷ rest) post named,
            routed_points user rest metric delta d m,
          )
          (points-Answered rules case_table g now user metric delta _ _ refl)
    Asks-Answered parts (ask_badge user badge) (post, (first, id, rest, e, named), v) =
        rw
          (
            e,
            routed_post first id user (text "badges" ∷ badge ∷ rest) post named,
            routed_badge user badge rest v,
          )
          (badge-Answered rules case_table g now user badge _ _ refl)
    Asks-Answered parts (ask_state user) (get, (first, id, rest, e, named)) =
        rw (e, routed_get first id user rest get named)
          (state-Answered rules case_table g now user _ _ refl)
