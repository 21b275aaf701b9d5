-- ===== src/Http/Users/Health.antt =====
-- What the health check of api/httpapi/httpapi.go does to the in-memory backend of
-- adapters/memory/storage.go.
use gamifykit.Prelude.{◌≡◌, ◌≢◌, refl, arith, Option, Option-cases, none, some, inl, inr, ite}
use gamifykit.Prelude.GoMap.{get, get-put}
use gamifykit.Prelude.Text.{text, text_key, Text-discrete}
use gamifykit.Core.{UserId, UserState, Time}
use gamifykit.Engine.Service.{GamifyService, get_state}
use gamifykit.Http.Users.{health_check}
use gamifykit.Stores.Memory
use gamifykit.Stores.Memory.{get_or_create, memory_storage}
use gamifykit.Stores.Table.{Table, new_user}

abbrev pub probe : UserId
probe = text "healthcheck_probe"

-- The record of the probe, which is filed if there was none.
abbrev pub probed : Option UserState → Time → UserState
probed none now = new_user probe now
probed (some st) now = st

get_or_create-get :
    (t : Table) (u v : UserId) (now : Time)
    → get (get_or_create t u now).1 v
      ≡ ite (Text-discrete u v) (some (get_or_create t u now).0) (get t v)
unfolding get_or_create
get_or_create-get t u v now = ground (arith, get-put t u v (new_user u now))

get_or_create-probed :
    (t : Table) (now : Time) → (get_or_create t probe now).0 ≡ probed (get t probe) now
unfolding get_or_create
get_or_create-probed t now = elim (Option-cases (get t probe)) [
  | inl h ↦ rw (h, get_or_create) refl
  | inr (st, h) ↦ rw (h, get_or_create) refl
]

module _ {W : Type 0} where
  -- A health check of a service on the in-memory backend answers 200 and publishes nothing. Behind
  -- it there is a record of the user "healthcheck_probe": the one that was there, or else a new and
  -- empty one; the records of all other users are what they were.
  pub health_check_files :
      (g : GamifyService memory_storage W) (now : Time)
      → ((health_check g now).0.status ≡ 200)
        × (get (health_check g now).1.storage probe ≡ some (probed (get g.storage probe) now))
        × ((v : UserId) → v ≢ probe → get (health_check g now).1.storage v ≡ get g.storage v)
        × ((health_check g now).1.bus ≡ g.bus)
        × ((health_check g now).1.env ≡ g.env)
  unfolding health_check get_state Memory.get_state
  health_check_files g now = (
    refl,
    ground (arith, get_or_create-get g.storage probe probe now, get_or_create-probed g.storage now),
    λ v n. ground (arith, get_or_create-get g.storage probe v now, n),
    refl,
    refl,
  )
