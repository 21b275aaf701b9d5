-- ===== src/Http/Paths.antt =====
-- The paths: `withPrefix` and `split` of api/httpapi/httpapi.go.
use mathlib.Core.List.{append_assoc, append-nil}
use gamifykit.Prelude.{
  ℕ, ◌≡◌, ◌≢◌, refl, arith, true, false, List, [], ◌∷◌, ◌++◌, if◌then◌else◌, ◌==◌,
}
use gamifykit.Prelude.Text.{Text}
use gamifykit.Config.Checks.{is_empty}

abbrev pub slash : ℕ
slash = 47

-- A text that is not empty, without its last character.
abbrev init_of : ℕ → Text → Text
init_of c [] = []
init_of c (d ∷ s) = c ∷ init_of d s

abbrev last_of : ℕ → Text → ℕ
last_of c [] = c
last_of c (d ∷ s) = last_of d s

unfoldable pub with_prefix : Text → Text → Text
with_prefix [] path = path
with_prefix (c ∷ s) path = if last_of c s == slash then init_of c s ++ path else (c ∷ s) ++ path

-- The part that is done, where one is begun.
abbrev flush : Text → List Text → List Text
flush cur parts = if is_empty cur then parts else cur ∷ parts

-- The loop over the runes, with the part begun.
unfoldable pub split_from : Text → Text → ℕ → List Text
split_from cur [] sep = flush cur []
split_from cur (c ∷ s) sep = elim (c == sep) [
  | true ↦ flush cur (split_from [] s sep)
  | false ↦ split_from (cur ++ c ∷ []) s sep
]

unfoldable pub trim_slashes : Text → Text
trim_slashes [] = []
trim_slashes (c ∷ s) = if c == slash then trim_slashes s else c ∷ s

unfoldable pub split : Text → ℕ → List Text
split p sep = split_from [] (trim_slashes p) sep

-- A part: not empty, and without a slash.
abbrev HasNoSlash : Text → Type 0
HasNoSlash [] = Unit
HasNoSlash (c ∷ s) = (c ≢ slash) × HasNoSlash s

abbrev pub AreParts : List Text → Type 0
AreParts [] = Unit
AreParts (p ∷ ps) = (p ≢ []) × HasNoSlash p × AreParts ps

-- The path with the given parts: a slash in front of each.
abbrev pub path_of : List Text → Text
path_of [] = []
path_of (p ∷ ps) = slash ∷ p ++ path_of ps

split_from-append :
    (cur p rest : Text)
    → HasNoSlash p
    → split_from cur (p ++ rest) slash ≡ split_from (cur ++ p) rest slash
unfolding split_from
split_from-append cur [] rest h = rw (append-nil cur) refl
split_from-append cur (c ∷ p) rest h =
    ground (arith, split_from-append (cur ++ c ∷ []) p rest h.1, append_assoc cur (c ∷ []) p)

split_from-path_of :
    (cur : Text) (ps : List Text) → AreParts ps → split_from cur (path_of ps) slash ≡ flush cur ps
unfolding split_from
split_from-path_of cur [] h = refl
split_from-path_of cur (p ∷ ps) (full, clean, more) =
    ground (arith, split_from-append [] p (path_of ps) clean, split_from-path_of p ps more)

-- Cutting a path gives back the parts it was put together from, whenever none of them is empty or
-- has a slash in it.
pub split-path_of : (ps : List Text) → AreParts ps → split (path_of ps) slash ≡ ps
unfolding split trim_slashes split_from
split-path_of [] h = refl
split-path_of ([] ∷ ps) (full, clean, more) = absurd (full refl)
split-path_of ((c ∷ p) ∷ ps) (full, clean, more) =
    ground
      (arith, split_from-append [] (c ∷ p) (path_of ps) clean, split_from-path_of (c ∷ p) ps more)
