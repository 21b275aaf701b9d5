-- ===== src/Tests/Instances.antt =====
-- Concrete parameters: ASCII lower-casing, whole numbers for float64, and a file that holds the
-- table itself.
use mathlib.Core.List.{Permᴰ, append-nil}
use mathlib.Core.List.Permᴰ
use gamifykit.Engine.Bus.{MapOrder}
use gamifykit.Prelude.{
  List, [], ◌∷◌, ◌++◌, ℕ, ◌+◌, ◌*◌, ◌/◌, ◌≤◌, ◌<◌, ◌≡◌, refl, arith, if◌then◌else◌, ◌&&◌, leb, some,
  zero, suc, Bool-cases, inl, inr,
}
use gamifykit.Prelude.Int.{ℤ, pos, negsuc, int_laws}
use gamifykit.Prelude.Text.{text}
use gamifykit.Core.UserName.{CaseTable, is_space}
use gamifykit.Core.Level.{Floats}
use gamifykit.Stores.Table.{Table}
use gamifykit.Stores.JsonFile.{Json}

abbrev pub lower_ascii : ℕ → ℕ
lower_ascii c = if leb 65 c && leb c 90 then c + 32 else c

pub lower_ascii_idem : (c : ℕ) → lower_ascii (lower_ascii c) ≡ lower_ascii c
lower_ascii_idem c = ground arith

pub lower_ascii_space : (c : ℕ) → is_space (lower_ascii c) ≡ is_space c
unfolding is_space
lower_ascii_space c = ground arith

abbrev pub ascii_table : CaseTable
ascii_table = record {
  to_lower = lower_ascii;
  to_lower_ascii = λ c h. refl;
  to_lower_idem = lower_ascii_idem;
  to_lower_space = lower_ascii_space;
}

unfoldable pub isqrt : ℕ → ℕ
isqrt zero = 0
isqrt (suc n) = let r = isqrt n in if leb ((r + 1) * (r + 1)) (suc n) then r + 1 else r

isqrt_lem : (n : ℕ) → (isqrt n * isqrt n ≤ n) × (n < (isqrt n + 1) * (isqrt n + 1))
unfolding isqrt
isqrt_lem zero = (omega arith, omega arith)
isqrt_lem (suc n) =
    let (l, u) = isqrt_lem n in
    elim (Bool-cases (leb ((isqrt n + 1) * (isqrt n + 1)) (suc n))) [
      | inl h ↦ rw h (grind arith)
      | inr h ↦ rw h (grind arith)
    ]

square_mono : (a b : ℕ) → a ≤ b → a * a ≤ b * b
square_mono a b h = grind arith

root_below : (r s n : ℕ) → r * r ≤ n → n < (s + 1) * (s + 1) → r ≤ s
root_below r s n l u = ground (arith, square_mono (s + 1) r)

pub isqrt_mono : (m n : ℕ) → m ≤ n → isqrt m ≤ isqrt n
isqrt_mono m n h = root_below (isqrt m) (isqrt n) n (ground (arith, isqrt_lem m)) (isqrt_lem n).1

pub isqrt_square : (k : ℕ) → isqrt (k * k) ≡ k
isqrt_square k =
    let (l, u) = isqrt_lem (k * k) in
    let below = root_below (isqrt (k * k)) k (k * k) l (grind arith) in
    let above = root_below k (isqrt (k * k)) (k * k) (omega arith) u in omega arith

abbrev pub whole : ℤ → ℕ
whole (pos n) = n
whole (negsuc n) = 0

abbrev pub whole_floats : Floats
whole_floats = record {
  Float = ℕ;
  LessEq = λ m n. m ≤ n;
  of_int64 = whole;
  sqrt = isqrt;
  tenth = λ n. n / 10;
  floor = λ n. n;
  to_int64 = pos;
  of_int64_mono = λ m n h. h;
  sqrt_mono = isqrt_mono;
  tenth_mono = λ m n h. omega arith;
  floor_mono = λ m n h. h;
  to_int64_mono = λ m n k b z h t. omega int_laws;
  sqrt_square = λ k h. isqrt_square k;
  tenth_exact = λ k h. omega arith;
  floor_exact = λ k h. refl;
  to_int64_exact = λ k h. refl;
}

abbrev pub table_json : Json
table_json = record {
  Bytes = Table;
  encode = λ t. t;
  decode = λ t. some t;
  decode-encode = λ t. (t, refl, λ u. refl);
  syntax_error = text "syntax error";
  io_error = text "no space left";
}

-- Maps are ranged over in the order of their entries, or against it.
abbrev pub in_entry_order : {W : Type 0} → MapOrder W
in_entry_order = record { arranged = λ ev w m. m; arranged-Perm = λ ev w m. Permᴰ.refl m }

abbrev against : {A : Type 0} → List A → List A
against [] = []
against (x ∷ xs) = against xs ++ x ∷ []

pub against-Perm : {A : Type 0} (xs : List A) → Permᴰ (against xs) xs
against-Perm [] = Permᴰ.refl []
against-Perm (x ∷ xs) =
    Permᴰ.trans (Permᴰ.middle x (against xs) [])
      (rw (append-nil (against xs)) (Permᴰ.cons refl (against-Perm xs)))

abbrev pub against_entry_order : {W : Type 0} → MapOrder W
against_entry_order = record {
  arranged = λ ev w m. against m;
  arranged-Perm = λ ev w m. against-Perm m;
}
