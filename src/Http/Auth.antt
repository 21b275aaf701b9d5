-- ===== src/Http/Auth.antt =====
-- The API keys of api/httpapi/httpapi.go.
use gamifykit.Prelude.{
  ℕ, zero, suc, ◌≡◌, ◌≢◌, ◌⊎◌, ◌↔◌, arith, Bool, true, false, List, [], ◌∷◌, if◌then◌else◌, ◌==◌,
  ◌&&◌,
}
use gamifykit.Prelude.GoMap.{GoSet, get, put, get-put}
use gamifykit.Prelude.Text.{Text, text, text_key}
use gamifykit.Core.UserName.{CaseTable, trim_space, lower}
use gamifykit.Config.Checks.{is_empty}
use gamifykit.Engine.Storage.{is_some}
use gamifykit.Http.Types.{Request, Response, write_error}

-- `strings.HasPrefix`
unfoldable pub has_prefix : Text → Text → Bool
has_prefix s [] = true
has_prefix [] (c ∷ p) = false
has_prefix (d ∷ s) (c ∷ p) = (d == c) && has_prefix s p

-- `s[n:]`
abbrev pub drop : ℕ → Text → Text
drop zero s = s
drop (suc n) [] = []
drop (suc n) (c ∷ s) = drop n s

unfoldable pub extract_api_key : CaseTable → Request → Text
extract_api_key case_table r =
    if has_prefix (lower case_table r.authorization) (text "bearer ")
    then trim_space (drop 7 r.authorization)
    else r.x_api_key

-- The set of keys that `withAPIKeyAuth` makes.
unfoldable pub allowed_keys : List Text → GoSet Text
allowed_keys [] = []
allowed_keys (k ∷ ks) =
    let rest = allowed_keys ks in
    if is_empty (trim_space k) then rest else put rest (trim_space k) tt

-- `withAPIKeyAuth` in front of a handler on the state `S`.
unfoldable pub with_api_key_auth :
    {S : Type 0} → CaseTable → List Text → (Request → S → Response × S) → Request → S → Response × S
with_api_key_auth case_table keys next r s =
    let key = extract_api_key case_table r in
    if is_empty key
    then (write_error 401 (text "unauthorized") (text "missing API key"), s)
    else (if is_some (get (allowed_keys keys) key)
        then next r s
        else (write_error 401 (text "unauthorized") (text "invalid API key"), s))

-- The key is one of the list, but for the blanks around that.
abbrev pub IsListed : Text → List Text → Type 0
IsListed key [] = ⊥
IsListed key (k ∷ ks) = (trim_space k ≡ key) ⊎ IsListed key ks

pub allowed_keys-IsListed :
    (key : Text) (ks : List Text)
    → key ≢ []
    → (is_some (get (allowed_keys ks) key) ≡ true) ↔ IsListed key ks
unfolding allowed_keys get
allowed_keys-IsListed key [] full = (λ h. ground arith, λ h. absurd h)
allowed_keys-IsListed key (k ∷ ks) full =
    let (to, from) = allowed_keys-IsListed key ks full in
    let here = get-put (allowed_keys ks) (trim_space k) key tt in
    (λ h. ground (arith, to, here), λ h. ground (arith, from, here))
