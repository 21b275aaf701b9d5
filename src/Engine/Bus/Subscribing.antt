-- ===== src/Engine/Bus/Subscribing.antt =====
-- Which handlers an event reaches, after calls of `Subscribe` and of the functions it returns.
use mathlib.Core.List.{map-append, Perm, Permᴰ}
use mathlib.Core.List.Permᴰ
use gamifykit.Prelude.{
  ℕ, ◌+◌, ◌<◌, ◌≡◌, refl, ap, subst, ◌∙◌, arith, List, ite, if_pos, if_neg, [], ◌∷◌, ◌++◌, none,
  map,
}
use gamifykit.Prelude.GoMap.{
  GoMap, get, get_or, put, delete, get-put, get-delete, put_absent, delete-put_absent, nat_key,
}
use gamifykit.Core.Events.{Event, EventType, EventType-discrete, event_type_key}
use gamifykit.Engine.Bus.{
  MapOrder, EventBus, Handler, Subscription, DispatchMode, dispatch_sync_mode, call_all, publish,
  dispatch_sync, new_event_bus, subscribe, unsubscribe, handlers_of,
}

pub none_arranged : {A : Type 0} {l m : List A} → Permᴰ l m → m ≡ [] → l ≡ []
none_arranged Permᴰ.nil e = refl
none_arranged (Permᴰ.cons k p) e = absurd (ground (arith, e))
none_arranged (Permᴰ.swap k l) e = absurd (ground (arith, e))
none_arranged (Permᴰ.trans p q) e = none_arranged p (none_arranged q e)

pub one_arranged : {A : Type 0} {l m : List A} → Permᴰ l m → (x : A) → m ≡ x ∷ [] → l ≡ x ∷ []
one_arranged Permᴰ.nil x e = absurd (ground (arith, e))
one_arranged (Permᴰ.cons {a} {b} {l₁} {l₂} k p) x e =
    let rest : l₂ ≡ [] = ground (arith, e) in
    let none_left = none_arranged p rest in ground (arith, e, k, none_left)
one_arranged (Permᴰ.swap k l) x e = absurd (ground (arith, e))
one_arranged (Permᴰ.trans p q) x e = one_arranged p x (one_arranged q x e)

-- The handlers run one after the other, each of them once.
abbrev pub run_each : {W : Type 0} → List (Handler W) → Event → W → W
run_each [] ev w = w
run_each (h ∷ hs) ev w = run_each hs ev (h ev w)

module _ {W : Type 0} where
  -- The ids in use are not above the counter.
  pub record IsFresh (e : EventBus W) : Type 0 where
    pub unused : (typ : EventType) (id : ℕ) → e.next_id < id → get (get_or e.subs typ []) id ≡ none

  pub new_event_bus-IsFresh :
      (order : MapOrder W) (mode : DispatchMode) → IsFresh (new_event_bus order mode)
  unfolding new_event_bus get
  new_event_bus-IsFresh order mode = record { unused = λ typ id h. refl }

  abbrev subs_of : EventBus W → EventType → GoMap ℕ (Subscription W)
  subs_of e typ = get_or e.subs typ []

  abbrev new_sub : EventBus W → EventType → Handler W → Subscription W
  new_sub e typ h = record { id = e.next_id + 1; typ = typ; fn = h }

  subs-subscribe :
      (e : EventBus W) (typ : EventType) (h : Handler W) (t : EventType)
      → subs_of (subscribe e typ h).0 t
        ≡ ite
            (EventType-discrete typ t)
            (put (subs_of e typ) (e.next_id + 1) (new_sub e typ h))
            (subs_of e t)
  unfolding subscribe
  subs-subscribe e typ h t =
      ground (arith, get-put e.subs typ t (put (subs_of e typ) (e.next_id + 1) (new_sub e typ h)))

  subs-unsubscribe :
      (e : EventBus W) (typ : EventType) (id : ℕ) (t : EventType)
      → subs_of (unsubscribe e typ id) t
        ≡ ite (EventType-discrete typ t) (delete (subs_of e typ) id) (subs_of e t)
  unfolding unsubscribe delete
  subs-unsubscribe e typ id t = ground (arith, get-put e.subs typ t (delete (subs_of e typ) id))

  fresh_after :
      (e : EventBus W) (typ : EventType) (h : Handler W)
      → IsFresh e
      → (t : EventType) (id : ℕ) → e.next_id + 1 < id
      → get (subs_of (subscribe e typ h).0 t) id ≡ none
  fresh_after e typ h f t id lt = ground (
    arith,
    subs-subscribe e typ h t,
    get-put (subs_of e typ) (e.next_id + 1) id (new_sub e typ h),
    f.unused t id,
    f.unused typ id,
  )

  pub subscribe-IsFresh :
      (e : EventBus W) (typ : EventType) (h : Handler W) → IsFresh e → IsFresh (subscribe e typ h).0
  unfolding subscribe
  subscribe-IsFresh e typ h f = record { unused = λ t id lt. fresh_after e typ h f t id lt }

  next_id-unsubscribe :
      (e : EventBus W) (typ : EventType) (id : ℕ) → (unsubscribe e typ id).next_id ≡ e.next_id
  unfolding unsubscribe
  next_id-unsubscribe e typ id = ground arith

  pub unsubscribe-IsFresh :
      (e : EventBus W) (typ : EventType) (id : ℕ) → IsFresh e → IsFresh (unsubscribe e typ id)
  unsubscribe-IsFresh e typ id f = record {
    unused = λ t j lt. ground (
      arith,
      subs-unsubscribe e typ id t,
      next_id-unsubscribe e typ id,
      get-delete (subs_of e typ) id j,
      f.unused t j,
      f.unused typ j,
    );
  }

  mode-subscribe :
      (e : EventBus W) (typ : EventType) (h : Handler W) → (subscribe e typ h).0.mode ≡ e.mode
  unfolding subscribe
  mode-subscribe e typ h = refl

  mode-unsubscribe :
      (e : EventBus W) (typ : EventType) (id : ℕ) → (unsubscribe e typ id).mode ≡ e.mode
  unfolding unsubscribe
  mode-unsubscribe e typ id = ground arith

  -- The handlers of a type, in no meant order.
  abbrev pub attached : EventBus W → EventType → List (Handler W)
  attached e typ = map (λ entry. (entry.1).fn) (get_or e.subs typ [])

  -- A new handler joins the others of its type, and changes nothing for any other type.
  attached-subscribe :
      (e : EventBus W) (typ : EventType) (h : Handler W)
      → IsFresh e
      → (t : EventType)
      → attached (subscribe e typ h).0 t
        ≡ ite (EventType-discrete typ t) (attached e typ ++ h ∷ []) (attached e t)
  attached-subscribe e typ h f t = elim (EventType-discrete typ t) [
    | yes p ↦
        rw
          (
            subs-subscribe e typ h t,
            if_pos _ p,
            if_pos _ p,
            put_absent (subs_of e typ) (e.next_id + 1) (new_sub e typ h)
                (f.unused typ (e.next_id + 1) (omega arith)),
          )
          (map-append _ _ _)
    | no p ↦ rw (subs-subscribe e typ h t, if_neg _ p, if_neg _ p) refl
  ]

  joined :
      (e : EventBus W) (typ : EventType) (h : Handler W)
      → IsFresh e
      → (t : EventType)
      → attached (subscribe e typ h).0 t
        ≡ ite (EventType-discrete typ t) (attached e t ++ h ∷ []) (attached e t)
  joined e typ h f t = elim (EventType-discrete typ t) [
    | yes p ↦
        subst
          (λ u.
            attached (subscribe e typ h).0 t
            ≡ ite (EventType-discrete typ t) (attached e u ++ h ∷ []) (attached e t))
          p (attached-subscribe e typ h f t)
    | no p ↦ attached-subscribe e typ h f t ∙ rw (if_neg _ p, if_neg _ p) refl
  ]

  subs-unsubscribe-subscribe :
      (e : EventBus W) (typ : EventType) (h : Handler W)
      → IsFresh e
      → (t : EventType)
      → subs_of (unsubscribe (subscribe e typ h).0 typ (e.next_id + 1)) t ≡ subs_of e t
  subs-unsubscribe-subscribe e typ h f t = ground (
    arith,
    subs-unsubscribe (subscribe e typ h).0 typ (e.next_id + 1) t,
    subs-subscribe e typ h typ,
    subs-subscribe e typ h t,
    delete-put_absent (subs_of e typ) (e.next_id + 1) (new_sub e typ h)
        (f.unused typ (e.next_id + 1) (omega arith)),
  )

  -- To unsubscribe undoes a subscription.
  attached-unsubscribe-subscribe :
      (e : EventBus W) (typ : EventType) (h : Handler W)
      → IsFresh e
      → (t : EventType)
      → attached (unsubscribe (subscribe e typ h).0 typ (subscribe e typ h).1) t ≡ attached e t
  unfolding subscribe
  attached-unsubscribe-subscribe e typ h f t =
      ap (map (λ entry. (entry.1).fn)) (subs-unsubscribe-subscribe e typ h f t)

  call_all_lem : (hs : List (Handler W)) (ev : Event) (w : W) → call_all hs ev w ≡ run_each hs ev w
  unfolding call_all
  call_all_lem [] ev w = refl
  call_all_lem (h ∷ hs) ev w = call_all_lem hs ev (h ev w)

  -- A published event runs some arrangement of the handlers of its type.
  published_each :
      (e : EventBus W) (ev : Event) (w : W)
      → e.mode ≡ dispatch_sync_mode
      → (hs : List (Handler W)) × Perm hs (attached e ev.typ)
        × ((publish e ev w).1 ≡ run_each hs ev w)
  unfolding publish dispatch_sync handlers_of
  published_each e ev w m = (
    handlers_of e ev w,
    ∣ Permᴰ.map (λ entry. (entry.1).fn)
        (e.range_order.arranged-Perm ev w (get_or e.subs ev.typ [])) ∣₁,
    ground (arith, m, call_all_lem (handlers_of e ev w) ev w),
  )

  -- On a synchronous bus whose ids in use are not above its counter, in whatever order Go ranges
  -- over its maps: behind a subscription, a published event runs the handlers that its type had
  -- before, each once, and the new handler, once, if it is of that type; and behind the end of that
  -- subscription again those that it had before; both in some order.
  pub publish-subscribe :
      (e : EventBus W) (typ : EventType) (h : Handler W) (ev : Event) (w : W)
      → IsFresh e
      → e.mode ≡ dispatch_sync_mode
      → ((hs : List (Handler W)) × Perm hs
            (ite (EventType-discrete typ ev.typ) (attached e ev.typ ++ h ∷ []) (attached e ev.typ))
          × ((publish (subscribe e typ h).0 ev w).1 ≡ run_each hs ev w))
        × ((hs : List (Handler W)) × Perm hs (attached e ev.typ)
            × ((publish (unsubscribe (subscribe e typ h).0 typ (subscribe e typ h).1) ev w).1
                ≡ run_each hs ev w))
  publish-subscribe e typ h ev w f m =
      let (hs, p, r) = published_each (subscribe e typ h).0 ev w (mode-subscribe e typ h ∙ m) in
      let e' = unsubscribe (subscribe e typ h).0 typ (subscribe e typ h).1 in
      let (hs', p', r') = published_each e' ev w (
        mode-unsubscribe (subscribe e typ h).0 typ (subscribe e typ h).1
        ∙ mode-subscribe e typ h
        ∙ m) in
      (
        (hs, subst (Perm hs) (joined e typ h f ev.typ) p, r),
        (hs', subst (Perm hs') (attached-unsubscribe-subscribe e typ h f ev.typ) p', r'),
      )
