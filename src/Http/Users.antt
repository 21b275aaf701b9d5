-- ===== src/Http/Users.antt =====
-- The handlers of api/httpapi/httpapi.go on the service: the users API and the health check.
pub mod Asking
pub mod Health
pub mod Outcomes
pub mod Routing
use gamifykit.Prelude.{
  ℕ, zero, suc, ◌+◌, ◌*◌, ◌-◌, Bool, true, false, not, ◌&&◌, List, [], ◌∷◌, ◌++◌, Option, none,
  some, Result, ok, err, ltb, leb, ◌==◌, if◌then◌else◌,
}
use gamifykit.Prelude.Int.{ℤ, pos, negsuc}
use gamifykit.Prelude.Text.{Text, text}
use gamifykit.Core.{UserId, Metric, Badge, Time, UserState, Error, metric_xp}
use gamifykit.Core.UserName.{CaseTable, normalize_user_id}
use gamifykit.Core.BadgeName.{validate_badge_id}
use gamifykit.Core.Rules.{Rule}
use gamifykit.Config.Checks.{is_empty, same}
use gamifykit.Engine.Storage.{Storage}
use gamifykit.Engine.Service.{GamifyService, add_points, award_badge, get_state}
use gamifykit.Http.Types.{
  Request, Response, Body, total_body, ok_body, state_body, health_body, error_text, write_json,
  write_error, method_get, method_post,
}
use gamifykit.Http.Paths.{slash, split}

-- The value of decimal digits, `none` at any other character.
unfoldable pub digits_from : ℕ → Text → Option ℕ
digits_from n [] = some n
digits_from n (c ∷ s) =
    let more = digits_from (10 * n + (c - 48)) s in if leb 48 c && leb c 57 then more else none

unfoldable pub digits : Text → Option ℕ
digits [] = none
digits (c ∷ s) = digits_from 0 (c ∷ s)

abbrev positive : Option ℕ → Option ℤ
positive none = none
positive (some n) = if ltb n 9223372036854775808 then some (pos n) else none

abbrev negative : Option ℕ → Option ℤ
negative none = none
negative (some zero) = some (pos 0)
negative (some (suc n)) = if ltb n 9223372036854775808 then some (negsuc n) else none

-- `strconv.ParseInt(s, 10, 64)`: an optional sign, digits, and a value in range.
unfoldable pub parse_int : Text → Option ℤ
parse_int [] = none
parse_int (c ∷ s) =
    if c == 45
    then negative (digits s)
    else (if c == 43 then positive (digits s) else positive (digits (c ∷ s)))

-- `strings.TrimPrefix`
unfoldable pub trim_prefix_on : Text → Text → Text → Text
trim_prefix_on whole s [] = s
trim_prefix_on whole [] (c ∷ p) = whole
trim_prefix_on whole (d ∷ s) (c ∷ p) =
    let rest = trim_prefix_on whole s p in if d == c then rest else whole

unfoldable pub rooted : Text → Text
rooted [] = slash ∷ []
rooted (c ∷ s) = if c == slash then c ∷ s else slash ∷ c ∷ s

abbrev pub not_found : Response
not_found = write_error 404 (text "not_found") (text "route not found")

-- How the results of the service are answered.
abbrev pub points_answer : Result Error ℤ → Response
points_answer (ok total) = write_json (total_body total)
points_answer (err e) = write_error 400 (text "invalid_input") (error_text e)

abbrev pub badge_answer : Option Error → Response
badge_answer none = write_json ok_body
badge_answer (some e) = write_error 400 (text "invalid_input") (error_text e)

abbrev pub state_answer : Result Error UserState → Response
state_answer (ok st) = write_json (state_body st)
state_answer (err e) = write_error 500 (text "internal") (error_text e)

module _ {S : Storage} {W : Type 0} where
  -- Its answer sets no header: the one of `writeJSON` comes behind `WriteHeader`, which is too late.
  unfoldable pub health_check : GamifyService S W → Time → Response × GamifyService S W
  health_check g now =
      let (found, g') = get_state g now (text "healthcheck_probe") in
      (
        elim found [
          | ok _ ↦ record { status = 200; headers = []; body = health_body true }
          | err _ ↦ record { status = 503; headers = []; body = health_body false }
        ],
        g',
      )

  unfoldable pub post_badge :
      CaseTable → GamifyService S W → Time → UserId → Badge → Response × GamifyService S W
  post_badge case_table g now user badge = elim (validate_badge_id badge) [
    | some e ↦ (write_error 400 (text "invalid_badge") (error_text e), g)
    | none ↦ let (failed, g') = award_badge case_table g now user badge in (badge_answer failed, g')
  ]

  unfoldable pub get_user : GamifyService S W → Time → UserId → Response × GamifyService S W
  get_user g now user = let (found, g') = get_state g now user in (state_answer found, g')

module _ {S : Storage} {W : Type 0} (rules : Rule) (case_table : CaseTable) where
  unfoldable pub post_points :
      GamifyService S W → Time → Request → UserId → Response × GamifyService S W
  post_points g now r user =
      let metric = if is_empty r.query_metric then metric_xp else r.query_metric in
      elim (parse_int r.query_delta) [
        | none ↦ (write_error 400 (text "invalid_delta") (text "delta must be an integer"), g)
        | some delta ↦
            let (result, g') = add_points rules case_table g now user metric delta in
            (points_answer result, g')
      ]

  -- A POST, by the parts behind the user.
  unfoldable pub post_user :
      GamifyService S W → Time → Request → UserId → List Text → Response × GamifyService S W
  post_user g now r user [] = (not_found, g)
  post_user g now r user (kind ∷ rest) =
      if same kind (text "points") then post_points g now r user else (elim rest [
        | [] ↦ (not_found, g)
        | badge ∷ _ ↦
            if same kind (text "badges")
            then post_badge case_table g now user badge
            else (not_found, g)
      ])

  unfoldable pub route_user :
      GamifyService S W → Time → Request → Text → List Text → Response × GamifyService S W
  route_user g now r id rest = elim (normalize_user_id case_table id) [
    | err e ↦ (write_error 400 (text "invalid_user") (error_text e), g)
    | ok user ↦
        if same r.method method_post then post_user g now r user rest else get_user g now user
  ]

  -- The parts of the path, of which the first is "users".
  abbrev pub route_parts :
      GamifyService S W → Time → Request → List Text → Response × GamifyService S W
  route_parts g now r [] = (not_found, g)
  route_parts g now r (_ ∷ []) = (not_found, g)
  route_parts g now r (_ ∷ id ∷ rest) = route_user g now r id rest

  -- The handler of "/users/", under the prefix of the options.
  unfoldable pub users_handler :
      Text → GamifyService S W → Time → Request → Response × GamifyService S W
  users_handler prefix g now r =
      if not (same r.method method_get) && not (same r.method method_post)
      then (not_found, g)
      else route_parts g now r (split (rooted (trim_prefix_on r.path r.path prefix)) slash)
