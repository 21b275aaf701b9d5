-- ===== src/Stores/Redis/Keys.antt =====
-- Parsing the keys that the Redis store makes.
use mathlib.Core.List.{append_assoc, append-nil}
use gamifykit.Prelude.{
  ◌≡◌, ◌≢◌, refl, ap, sym, ◌∙◌, arith, if_pos, List, [], ◌∷◌, ◌++◌, map, some, ok, err,
  Result-cases, inl, inr,
}
use gamifykit.Prelude.Int.{ℤ}
use gamifykit.Prelude.GoMap.{GoMap, put}
use gamifykit.Prelude.Text.{Text, text, text_key, Text-discrete}
use gamifykit.Core.{UserId, Metric}
use gamifykit.Stores.Redis.{
  Server, colon, add_part, key_parts_from, redis_key_parts, user_points_key, user_levels_key,
  metric_part, read_keys,
}

-- A text that is not empty and has no colon.
abbrev pub NoColon : Text → Type 0
NoColon [] = Unit
NoColon (c ∷ cs) = (c ≢ colon) × NoColon cs

abbrev pub IsName : Text → Type 0
IsName t = (t ≢ []) × NoColon t

key_parts_from-append :
    (current w rest : Text)
    → NoColon w
    → key_parts_from current (w ++ rest) ≡ key_parts_from (current ++ w) rest
unfolding key_parts_from
key_parts_from-append current [] rest h = ap (λ t. key_parts_from t rest) (sym (append-nil current))
key_parts_from-append current (c ∷ w) rest h =
    let next = key_parts_from-append (current ++ c ∷ []) w rest h.1 in
    ground (arith, h.0, next, append_assoc current (c ∷ []) w)

add_part_name : (t : Text) (parts : List Text) → t ≢ [] → add_part t parts ≡ t ∷ parts
add_part_name [] parts h = absurd (h refl)
add_part_name (c ∷ cs) parts h = refl

-- A name and a colon are cut off.
key_parts_name :
    (w rest : Text) → IsName w → key_parts_from [] (w ++ colon ∷ rest) ≡ w ∷ key_parts_from [] rest
unfolding key_parts_from
key_parts_name w rest h =
    key_parts_from-append [] w (colon ∷ rest) h.1 ∙ add_part_name w (key_parts_from [] rest) h.0

key_parts_last : (w : Text) → IsName w → key_parts_from [] w ≡ w ∷ []
unfolding key_parts_from
key_parts_last w h =
    ap (key_parts_from []) (sym (append-nil w))
    ∙ key_parts_from-append [] w [] h.1
    ∙ add_part_name w [] h.0

-- The parts of a key of points and of a key of levels are those that it was made of, where user and
-- metric are not empty and have no colon.
pub redis_key_parts-user_key :
    (u : UserId) (m : Metric)
    → IsName u
    → IsName m
    → (redis_key_parts (user_points_key u m) ≡ text "user" ∷ u ∷ text "points" ∷ m ∷ [])
      × (redis_key_parts (user_levels_key u m) ≡ text "user" ∷ u ∷ text "levels" ∷ m ∷ [])
unfolding redis_key_parts user_points_key user_levels_key key_parts_from
redis_key_parts-user_key u m hu hm =
    let user = key_parts_name (text "user") in
    (
      user (u ++ text ":points:" ++ m) user_name
          ∙ ap (λ l. text "user" ∷ l)
              (ap (key_parts_from []) (append_assoc u (text ":points:") m)
                ∙ key_parts_name u (text "points:" ++ m) hu
                ∙ ap (λ l. u ∷ l)
                    (key_parts_name (text "points") m points_name
                      ∙ ap (λ l. text "points" ∷ l) (key_parts_last m hm))),
      user (u ++ text ":levels:" ++ m) user_name
          ∙ ap (λ l. text "user" ∷ l)
              (ap (key_parts_from []) (append_assoc u (text ":levels:") m)
                ∙ key_parts_name u (text "levels:" ++ m) hu
                ∙ ap (λ l. u ∷ l)
                    (key_parts_name (text "levels") m levels_name
                      ∙ ap (λ l. text "levels" ∷ l) (key_parts_last m hm))),
    )
  where
    user_name : IsName (text "user")
    user_name = (
      λ e. absurd (ground (arith, e)),
      (λ e. omega arith, (λ e. omega arith, (λ e. omega arith, (λ e. omega arith, tt)))),
    )

    points_name : IsName (text "points")
    points_name = (
      λ e. absurd (ground (arith, e)),
      (
        λ e. omega arith,
        (
          λ e. omega arith,
          (λ e. omega arith, (λ e. omega arith, (λ e. omega arith, (λ e. omega arith, tt)))),
        ),
      ),
    )

    levels_name : IsName (text "levels")
    levels_name = (
      λ e. absurd (ground (arith, e)),
      (
        λ e. omega arith,
        (
          λ e. omega arith,
          (λ e. omega arith, (λ e. omega arith, (λ e. omega arith, (λ e. omega arith, tt)))),
        ),
      ),
    )

-- The values of the keys of some metrics, put into a map one after the other.
abbrev pub put_totals :
    (server : Server) → server.State → UserId → List Metric → GoMap Metric ℤ → GoMap Metric ℤ
put_totals server s u [] acc = acc
put_totals server s u (m ∷ ms) acc = elim (server.get_int s (user_points_key u m)) [
  | err _ ↦ put_totals server s u ms acc
  | ok n ↦ put_totals server s u ms (put acc m n)
]

abbrev pub AreNames : List Metric → Type 0
AreNames [] = Unit
AreNames (m ∷ ms) = IsName m × AreNames ms

-- Reading the keys of some metrics of a user puts the total of each under its own metric, where
-- user and metrics are not empty and have no colon; a value that is no number is passed over.
pub read_keys-put_totals :
    (server : Server) (s : server.State) (u : UserId) (ms : List Metric) (acc : GoMap Metric ℤ)
    → IsName u
    → AreNames ms
    → read_keys server (text "points") s (map (user_points_key u) ms) acc
      ≡ put_totals server s u ms acc
unfolding read_keys
read_keys-put_totals server s u [] acc hu hs = refl
read_keys-put_totals server s u (m ∷ ms) acc hu hs =
    let parsed = (redis_key_parts-user_key u m hu hs.0).0 in
    let found : metric_part (text "points") (redis_key_parts (user_points_key u m)) ≡ some m =
      ap (metric_part (text "points")) parsed
      ∙ if_pos (Text-discrete (text "points") (text "points")) refl _ _ in
    elim (Result-cases (server.get_int s (user_points_key u m))) [
      | inl (n, e) ↦
          ground (arith, found, e, read_keys-put_totals server s u ms (put acc m n) hu hs.1)
      | inr (t, e) ↦ ground (arith, found, e, read_keys-put_totals server s u ms acc hu hs.1)
    ]
