-- ===== src/Analytics/Service/Subscriptions.antt =====
-- The subscriptions of a service, among which the dashboard has a name of its own.
use gamifykit.Prelude.{ℕ, ◌≡◌, ◌≢◌, refl, sym, ◌∙◌, arith, [], ◌∷◌, some}
use gamifykit.Prelude.GoMap.{GoMap, get, put, delete}
use gamifykit.Prelude.Text.{Text, text, Text-discrete, text_key}
use gamifykit.Analytics.Streaming.{receivers}
use gamifykit.Analytics.Streaming.Delivery.{times}

abbrev pub board_name : Text
board_name = text "dashboard"

-- Only the name of the dashboard stands for its address.
abbrev pub Named : GoMap Text ℕ → Type 0
Named [] = Unit
Named ((id, p) ∷ subs) = (p ≡ 0 → id ≡ board_name) × Named subs

pub put-Named :
    (subs : GoMap Text ℕ) (id : Text) (p : ℕ)
    → id ≢ board_name
    → p ≢ 0
    → Named subs
    → Named (put subs id p) × (times 0 (receivers (put subs id p)) ≡ times 0 (receivers subs))
unfolding put receivers
put-Named [] id p ne nz n = ((λ e. absurd (nz e), tt), ground arith)
put-Named ((j, q) ∷ subs) id p ne nz n =
    let (rest, same) = put-Named subs id p ne nz n.1 in
    elim (Text-discrete j id) [
      | yes e ↦
          let other : q ≢ 0 = λ z. ne (sym e ∙ n.0 z) in
          let here : put ((j, q) ∷ subs) id p ≡ (id, p) ∷ subs = ground arith in
          rw here ((λ z. absurd (nz z), n.1), ground arith)
      | no d ↦
          let there : put ((j, q) ∷ subs) id p ≡ (j, q) ∷ put subs id p = ground arith in
          rw there ((n.0, rest), ground arith)
    ]

pub delete-Named :
    (subs : GoMap Text ℕ) (id : Text)
    → id ≢ board_name
    → Named subs
    → Named (delete subs id) × (times 0 (receivers (delete subs id)) ≡ times 0 (receivers subs))
unfolding delete receivers
delete-Named [] id ne n = (tt, refl)
delete-Named ((j, q) ∷ subs) id ne n =
    let (rest, same) = delete-Named subs id ne n.1 in
    elim (Text-discrete j id) [
      | yes e ↦
          let other : q ≢ 0 = λ z. ne (sym e ∙ n.0 z) in
          let here : delete ((j, q) ∷ subs) id ≡ delete subs id = ground arith in
          rw here (rest, ground arith)
      | no d ↦
          let there : delete ((j, q) ∷ subs) id ≡ (j, q) ∷ delete subs id = ground arith in
          rw there ((n.0, rest), ground arith)
    ]

pub get-Named :
    (subs : GoMap Text ℕ) (id : Text) (p : ℕ)
    → id ≢ board_name
    → Named subs
    → get subs id ≡ some p
    → p ≢ 0
unfolding get
get-Named [] id p ne n h = absurd (ground arith)
get-Named ((j, q) ∷ subs) id p ne n h = elim (Text-discrete j id) [
  | yes e ↦ let same : q ≡ p = ground arith in λ z. ne (sym e ∙ n.0 (same ∙ z))
  | no d ↦ get-Named subs id p ne n.1 (ground arith)
]
