-- ===== src/Http/Users/Outcomes.antt =====
-- What an answer of the users API says of the service.
use gamifykit.Prelude.{
  ◌≡◌, ◌≢◌, ◌⊎◌, inl, inr, refl, ap, sym, subst, ◌∙◌, arith, Bool, true, false, not, ◌&&◌, List, [],
  ◌∷◌, ◌++◌, Option-cases, Result-cases, ok, if◌then◌else◌,
}
use gamifykit.Prelude.Text.{Text, text}
use gamifykit.Core.{Time}
use gamifykit.Core.UserName.{CaseTable, normalize_user_id}
use gamifykit.Core.BadgeName.{validate_badge_id}
use gamifykit.Core.Rules.{Rule}
use gamifykit.Config.Checks.{same}
use gamifykit.Engine.Storage.{Storage}
use gamifykit.Engine.Service.{GamifyService}
use gamifykit.Http.Types.{Request, Response, write_error, method_get, method_post}
use gamifykit.Http.Paths.{slash, split, path_of, AreParts, split-path_of}
use gamifykit.Http.Users.{
  rooted, trim_prefix_on, route_parts, parse_int, not_found, post_points, post_badge, get_user,
  post_user, route_user, users_handler,
}
use gamifykit.Http.Users.Asking.{
  UserCall, ask_points, ask_badge, ask_state, Asks, metric_of, metric_of_lem, Asks-method, Answered,
  IsRefused, points-Answered, badge-Answered, state-Answered, Answered-silent,
}
use gamifykit.Http.Users.Routing.{Asks-Answered}

same-true : {s t : Text} → same s t ≡ true → s ≡ t
same-true h = ground arith

trim_prefix_on-append : (whole p s : Text) → trim_prefix_on whole (p ++ s) p ≡ s
unfolding trim_prefix_on
trim_prefix_on-append whole [] [] = refl
trim_prefix_on-append whole [] (c ∷ s) = refl
trim_prefix_on-append whole (c ∷ p) s = ground (arith, trim_prefix_on-append whole p s)

no_parts : split (slash ∷ []) slash ≡ []
unfolding split gamifykit.Http.Paths.trim_slashes gamifykit.Http.Paths.split_from
no_parts = refl

-- The handler reads the parts of the path behind the prefix.
rooted-split : (parts : List Text) → AreParts parts → split (rooted (path_of parts)) slash ≡ parts
unfolding rooted
rooted-split [] h = no_parts
rooted-split (p ∷ ps) h = split-path_of (p ∷ ps) h

module _ {S : Storage} {W : Type 0} (rules : Rule) (case_table : CaseTable) where
  -- One request and one state.
  module _ (g : GamifyService S W) (now : Time) (r : Request) where
    Outcome : List Text → Response × GamifyService S W → Type 0
    Outcome parts out =
        ((c : UserCall) × Asks case_table r parts c × Answered rules case_table g now c out.0 out.1)
        ⊎ IsRefused rules case_table g out.0 out.1

    bad_request :
        (parts : List Text) (code msg : Text) → Outcome parts (write_error 400 code msg, g)
    unfolding Outcome write_error
    bad_request parts code msg = inr (inl refl, refl)

    lost : (parts : List Text) → Outcome parts (not_found, g)
    unfolding Outcome write_error
    lost parts = inr (inr refl, refl)

    either :
        (parts : List Text) (b : Bool) (x y : Response × GamifyService S W)
        → (b ≡ true → Outcome parts x)
        → (b ≡ false → Outcome parts y)
        → Outcome parts (if b then x else y)
    either parts true x y p q = p refl
    either parts false x y p q = q refl

    post_points-Outcome :
        (first id user : Text) (rest : List Text)
        → r.method ≡ method_post
        → normalize_user_id case_table id ≡ ok user
        → Outcome (first ∷ id ∷ text "points" ∷ rest) (post_points rules case_table g now r user)
    unfolding post_points Outcome
    post_points-Outcome first id user rest post named =
        elim (Option-cases (parse_int r.query_delta)) [
          | inl h ↦ rw (h, post_points) (bad_request _ _ _)
          | inr (delta, h) ↦
              rw (h, post_points)
                (inl (
                  ask_points user (metric_of r) delta,
                  (post, (first, id, rest, refl, named), h, metric_of_lem r),
                  points-Answered rules case_table g now user (metric_of r) delta _ _ refl,
                ))
        ]

    post_badge-Outcome :
        (first id user badge : Text) (rest : List Text)
        → r.method ≡ method_post
        → normalize_user_id case_table id ≡ ok user
        → Outcome
            (first ∷ id ∷ text "badges" ∷ badge ∷ rest)
            (post_badge case_table g now user badge)
    unfolding post_badge Outcome
    post_badge-Outcome first id user badge rest post named =
        elim (Option-cases (validate_badge_id badge)) [
          | inr (e, h) ↦ rw (h, post_badge) (bad_request _ _ _)
          | inl h ↦
              rw (h, post_badge)
                (inl (
                  ask_badge user badge,
                  (post, (first, id, rest, refl, named), h),
                  badge-Answered rules case_table g now user badge _ _ refl,
                ))
        ]

    post_user-Outcome :
        (first id user : Text) (rest : List Text)
        → r.method ≡ method_post
        → normalize_user_id case_table id ≡ ok user
        → Outcome (first ∷ id ∷ rest) (post_user rules case_table g now r user rest)
    unfolding post_user
    post_user-Outcome first id user [] post named = lost _
    post_user-Outcome first id user (kind ∷ []) post named =
        either _ (same kind (text "points")) _ _
          (λ p. rw (same-true p) (post_points-Outcome first id user [] post named)) (λ _. lost _)
    post_user-Outcome first id user (kind ∷ badge ∷ rest) post named =
        either _ (same kind (text "points")) _ _
          (λ p. rw (same-true p) (post_points-Outcome first id user (badge ∷ rest) post named))
          (λ _.
            either _ (same kind (text "badges")) _ _
              (λ p. rw (same-true p) (post_badge-Outcome first id user badge rest post named))
              (λ _. lost _))

    get_user-Outcome :
        (first id user : Text) (rest : List Text)
        → r.method ≡ method_get
        → normalize_user_id case_table id ≡ ok user
        → Outcome (first ∷ id ∷ rest) (get_user g now user)
    unfolding get_user Outcome
    get_user-Outcome first id user rest get named = inl (
      ask_state user,
      (get, (first, id, rest, refl, named)),
      state-Answered rules case_table g now user _ _ refl,
    )

    route_parts-Outcome :
        (parts : List Text)
        → (r.method ≡ method_get) ⊎ (r.method ≡ method_post)
        → Outcome parts (route_parts rules case_table g now r parts)
    unfolding route_user
    route_parts-Outcome [] methods = lost _
    route_parts-Outcome (_ ∷ []) methods = lost _
    route_parts-Outcome (first ∷ id ∷ rest) methods =
        elim (Result-cases (normalize_user_id case_table id)) [
          | inr (e, h) ↦ rw (h, route_user) (bad_request _ _ _)
          | inl (user, h) ↦
              rw (h, route_user)
                (either _ (same r.method method_post) _ _
                  (λ p. post_user-Outcome first id user rest (same-true p) h)
                  (λ p. get_user-Outcome first id user rest (ground (arith, methods)) h))
        ]

    parts_of :
        (prefix : Text) (parts : List Text)
        → r.path ≡ prefix ++ path_of parts
        → AreParts parts
        → split (rooted (trim_prefix_on r.path r.path prefix)) slash ≡ parts
    parts_of prefix parts path clean =
        ap (λ p. split (rooted (trim_prefix_on r.path p prefix)) slash) path
        ∙ ap (λ p. split (rooted p) slash) (trim_prefix_on-append r.path prefix (path_of parts))
        ∙ rooted-split parts clean

    abbrev refused_method : Bool
    refused_method = not (same r.method method_get) && not (same r.method method_post)

    handled :
        (prefix : Text) (parts : List Text)
        → r.path ≡ prefix ++ path_of parts
        → AreParts parts
        → (r.method ≡ method_get) ⊎ (r.method ≡ method_post)
        → users_handler rules case_table prefix g now r ≡ route_parts rules case_table g now r parts
    unfolding users_handler
    handled prefix parts path clean methods =
        ap
          (λ ps. if refused_method then (not_found, g) else route_parts rules case_table g now r ps)
          (parts_of prefix parts path clean)
        ∙ ground (arith, methods)

    handler-Outcome :
        (prefix : Text) (parts : List Text)
        → r.path ≡ prefix ++ path_of parts
        → AreParts parts
        → Outcome parts (users_handler rules case_table prefix g now r)
    unfolding users_handler
    handler-Outcome prefix parts path clean =
        either parts refused_method (not_found, g) _ (λ _. lost parts)
          (λ p.
            rw (parts_of prefix parts path clean) (route_parts-Outcome parts (ground (arith, p))))

    Outcome-IsRefused :
        (parts : List Text) (out : Response × GamifyService S W)
        → Outcome parts out
        → ((c : UserCall) → ¬ Asks case_table r parts c)
        → IsRefused rules case_table g out.0 out.1
    unfolding Outcome
    Outcome-IsRefused parts out (inl (c, a, _)) nothing = absurd (nothing c a)
    Outcome-IsRefused parts out (inr h) nothing = h

    Outcome-silent :
        (parts : List Text) (out : Response × GamifyService S W)
        → Outcome parts out
        → out.0.status ≢ 200
        → (out.1.bus ≡ g.bus) × (out.1.env ≡ g.env)
    unfolding Outcome
    Outcome-silent parts out (inl (c, _, a)) h =
        Answered-silent rules case_table g now c out.0 out.1 a h
    Outcome-silent parts out (inr (_, e)) h = (ap (λ x. x.bus) e, ap (λ x. x.env) e)

    -- On a request whose path is the prefix and parts that are not empty and have no slash: if it
    -- asks for a call of the service, the answer and the new state are those of this call; if it
    -- asks for none, the answer has status 400 or 404 and the service is what it was; and an answer
    -- that has not status 200 has published nothing.
    pub users_handler-Served :
        (prefix : Text) (parts : List Text) (resp : Response) (g' : GamifyService S W)
        → r.path ≡ prefix ++ path_of parts
        → AreParts parts
        → users_handler rules case_table prefix g now r ≡ (resp, g')
        → ((c : UserCall) → Asks case_table r parts c → Answered rules case_table g now c resp g')
          × (((c : UserCall) → ¬ Asks case_table r parts c) → IsRefused rules case_table g resp g')
          × (resp.status ≢ 200 → (g'.bus ≡ g.bus) × (g'.env ≡ g.env))
    users_handler-Served prefix parts resp g' path clean h =
        let outcome = subst (Outcome parts) h (handler-Outcome prefix parts path clean) in
        (
          λ c a.
              let e =
                sym (handled prefix parts path clean (Asks-method case_table r parts c a)) ∙ h in
              subst (λ out. Answered rules case_table g now c out.0 out.1) e
                (Asks-Answered rules case_table g now r parts c a),
          Outcome-IsRefused parts (resp, g') outcome,
          Outcome-silent parts (resp, g') outcome,
        )
