-- ===== src/Stores/Redis/Cache.antt =====
-- The cached states of the Redis store: when a read sees one, and that it is no stale one.
use gamifykit.Prelude.{
  ◌≡◌, ap, sym, arith, Option, Option-cases, none, some, Result-cases, ok, err, inl, inr,
}
use gamifykit.Prelude.Int.{ℤ, pos, ℤ-discrete}
use gamifykit.Prelude.Text.{Text}
use gamifykit.Core.{UserId, Metric, Badge, Time, UserState}
use gamifykit.Stores.Redis.{
  Server, user_points_key, user_badges_key, user_levels_key, user_state_key, invalidate_state_cache,
  add_points, settle, award_badge, set_level, get_cached_state, update_state_cache,
  build_state_from_keys, rebuild, get_state,
}

-- Documented behaviour of a server that answers: DEL removes a value, SET stores it, and a state
-- that is encoded is decoded again.
pub record Caches (server : Server) : Type 0 where
  pub del_works :
      (s : server.State) (k : Text) → (e : Text) × (server.get_bytes (server.del s k) k ≡ err e)
  pub set_works :
      (s : server.State) (k : Text) (bytes : server.Bytes)
      → (server.set_bytes s k bytes).0 ≡ none
      → server.get_bytes (server.set_bytes s k bytes).1 k ≡ ok bytes
  pub unmarshal-marshal :
      (state : UserState) (bytes : server.Bytes)
      → server.marshal state ≡ ok bytes
      → server.unmarshal bytes ≡ ok state

module _ (server : Server) where
  -- A write of something of a user that succeeded, and the state that it left.
  pub data Wrote (u : UserId) : server.State → Type 0 where
    wrote_points :
        (s : server.State) (now : Time) (m : Metric) (d n : ℤ) {s' : server.State}
        → add_points server s now u m d ≡ (ok n, s')
        → Wrote u s'
    wrote_badge :
        (s : server.State) (now : Time) (badge : Badge) {s' : server.State}
        → award_badge server s now u badge ≡ (none, s')
        → Wrote u s'
    wrote_level :
        (s : server.State) (now : Time) (m : Metric) (n : ℤ) {s' : server.State}
        → set_level server s now u m n ≡ (none, s')
        → Wrote u s'

  -- The state of a write that succeeded is one whose cached state was removed.
  settle_invalidated :
      (what : Text) (u : UserId) (r : Option Text × server.State) (s' : server.State)
      → settle server what u r ≡ (none, s')
      → (s : server.State) × (s' ≡ invalidate_state_cache server s u)
  unfolding settle
  settle_invalidated what u (some e, s) s' h = absurd (ground (arith, ap (λ r. r.0) h))
  settle_invalidated what u (none, s) s' h = (s, sym (ap (λ r. r.1) h))

  add_points_invalidated :
      (s s' : server.State) (now : Time) (u : UserId) (m : Metric) (d n : ℤ)
      → add_points server s now u m d ≡ (ok n, s')
      → (t : server.State) × (s' ≡ invalidate_state_cache server t u)
  unfolding add_points
  add_points_invalidated s s' now u m d n h =
      let ran = server.run_add_points s (user_points_key u m) d in
      elim (ℤ-discrete d (pos 0)) [
        | yes z ↦ absurd (ground (arith, ap (λ r. r.0) h))
        | no ne ↦ elim (Result-cases ran.0) [
          | inr (e, k) ↦ absurd (ground (arith, ap (λ r. r.0) h))
          | inl (total, k) ↦ elim (Option-cases total) [
            | inl l ↦ absurd (ground (arith, ap (λ r. r.0) h))
            | inr (_, l) ↦ (ran.1, ground (arith, ap (λ r. r.1) h))
          ]
        ]
      ]

  invalidated :
      (u : UserId) (s' : server.State)
      → Wrote u s'
      → (s : server.State) × (s' ≡ invalidate_state_cache server s u)
  unfolding award_badge set_level
  invalidated u s' (wrote_points s now m d n h) = add_points_invalidated s s' now u m d n h
  invalidated u s' (wrote_badge s now badge h) =
      settle_invalidated _ u (server.sadd s (user_badges_key u) badge) s' h
  invalidated u s' (wrote_level s now m n h) =
      settle_invalidated _ u (server.set_int s (user_levels_key u m) n) s' h

  -- On a server that answers, a GetState behind a write of the user that succeeded does not see a
  -- cached state: it is built from the keys.
  pub get_state-rebuild :
      Caches server
      → (u : UserId) (s : server.State) → Wrote u s
      → (now : Time) → get_state server s now u ≡ rebuild server s now u
  unfolding get_state get_cached_state invalidate_state_cache
  get_state-rebuild c u s w now =
      let (t, e) = invalidated u s w in
      let (m, gone) = c.del_works t (user_state_key u) in ground (arith, e, gone)

  -- On a server that answers, and where the state could be cached, a second GetState returns the
  -- state of the first, whatever the time.
  pub get_state-get_state :
      Caches server
      → (s : server.State) (now later : Time) (u : UserId) (state : UserState)
      → (get_state server s now u).0 ≡ ok state
      → (update_state_cache server s u state).0 ≡ none
      → (get_state server (get_state server s now u).1 later u).0 ≡ ok state
  unfolding get_state get_cached_state rebuild update_state_cache
  get_state-get_state c s now later u state h cached =
      elim (Result-cases (get_cached_state server s u)) [
        | inl (old, k) ↦ ground (arith, h, k)
        | inr (e, k) ↦ elim (Result-cases (build_state_from_keys server s now u)) [
          | inr (m, l) ↦ absurd (ground (arith, h, k, l))
          | inl (built, l) ↦
              let same : built ≡ state = ground (arith, h, k, l) in
              elim (Result-cases (server.marshal state)) [
                | inr (m, b) ↦ absurd (ground (arith, cached, b))
                | inl (bytes, b) ↦
                    let there =
                      c.set_works s (user_state_key u) bytes (ground (arith, cached, b)) in
                    ground (arith, h, k, l, same, b, there, c.unmarshal-marshal state bytes b)
              ]
        ]
      ]
