-- ===== src/Leaderboard/Entry.antt =====
-- The entries of leaderboard/leaderboard.go and their order, `less` of leaderboard/skiplist.go.
use gamifykit.Prelude.{
  ◌≡◌, ◌≢◌, refl, arith, Bool, true, false, [], ◌∷◌, ite, ltb, ◌==◌, if◌then◌else◌,
}
use gamifykit.Prelude.Int.{ℤ, ltb_ℤ, ℤ-discrete}
use gamifykit.Prelude.Text.{Text}
use gamifykit.Core.{UserId}

pub record Entry : Type 0 where
  pub user : UserId
  pub score : ℤ

-- `<` on strings: the order of the UTF-8 bytes is that of the code points.
unfoldable pub text_ltb : Text → Text → Bool
text_ltb [] [] = false
text_ltb [] (d ∷ t) = true
text_ltb (c ∷ s) [] = false
text_ltb (c ∷ s) (d ∷ t) = let rest = text_ltb s t in if c == d then rest else ltb c d

-- The higher score comes first, and among equals the smaller user.
unfoldable pub less : Entry → Entry → Bool
less a b = ite (ℤ-discrete a.score b.score) (text_ltb a.user b.user) (ltb_ℤ b.score a.score)

text_ltb_irrefl : (s : Text) → text_ltb s s ≡ false
unfolding text_ltb
text_ltb_irrefl [] = refl
text_ltb_irrefl (c ∷ s) = ground (arith, text_ltb_irrefl s)

text_ltb_trans : (s t r : Text) → text_ltb s t ≡ true → text_ltb t r ≡ true → text_ltb s r ≡ true
unfolding text_ltb
text_ltb_trans [] [] r h k = ground arith
text_ltb_trans [] (d ∷ t) [] h k = ground arith
text_ltb_trans [] (d ∷ t) (b ∷ r) h k = refl
text_ltb_trans (c ∷ s) [] r h k = ground arith
text_ltb_trans (c ∷ s) (d ∷ t) [] h k = ground arith
text_ltb_trans (c ∷ s) (d ∷ t) (b ∷ r) h k = ground (arith, text_ltb_trans s t r)

text_ltb_total : (s t : Text) → text_ltb s t ≡ false → s ≢ t → text_ltb t s ≡ true
unfolding text_ltb
text_ltb_total [] [] h ne = absurd (ne refl)
text_ltb_total [] (d ∷ t) h ne = ground arith
text_ltb_total (c ∷ s) [] h ne = refl
text_ltb_total (c ∷ s) (d ∷ t) h ne = ground (arith, text_ltb_total s t)

pub less_irrefl : (a : Entry) → less a a ≡ false
unfolding less
less_irrefl a = ground (arith, text_ltb_irrefl a.user)

pub less_trans : (a b c : Entry) → less a b ≡ true → less b c ≡ true → less a c ≡ true
unfolding less
less_trans a b c h k = ground (arith, text_ltb_trans a.user b.user c.user)

pub less_asym : (a b : Entry) → less a b ≡ true → less b a ≡ false
less_asym a b h = ground (arith, less_trans a b a h, less_irrefl a)

-- Entries of two users are ordered one way or the other.
pub less_total : (a b : Entry) → a.user ≢ b.user → less a b ≡ false → less b a ≡ true
unfolding less
less_total a b ne h = ground (arith, text_ltb_total a.user b.user)
