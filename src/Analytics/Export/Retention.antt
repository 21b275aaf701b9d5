-- ===== src/Analytics/Export/Retention.antt =====
-- What is handed to the HTTP exporter and not redirected is not lost.
use gamifykit.Prelude.{
  ℕ, ◌<◌, ◌≤◌, false, ◌≡◌, ◌⊎◌, inl, inr, refl, sym, subst, arith, Bool-cases, leb, List, [], ◌∷◌,
  ◌++◌, Option, none, some, Result-cases, ok, length,
}
use gamifykit.Prelude.Int.{pos, leb_ℤ}
use gamifykit.Prelude.Text.{Text, text}
use gamifykit.Analytics.Aggregation.{AggregatedData}
use gamifykit.Analytics.Export.{
  Network, HttpExporter, post, authorize, send_batch, flush_http, export_http, status_error,
}

-- Documented behaviour of a server and of the client: a request carries the batch that it was made
-- for; a server that answers with a status from 200 to 299 has accepted the batch, unless the client
-- was redirected, which may have dropped the body; in all other cases it has stored it or not.
pub record Delivers (net : Network) : Type 1 where
  pub stored : net.World → List AggregatedData
  -- the client is redirected, whether or not it follows
  pub IsRedirected : net.World → net.Request → Type 0
  pub Carries : net.Request → List AggregatedData → Type 0
  pub new_request_carries :
      (method url : Text) (batch : List AggregatedData) (p : net.Payload) (r : net.Request)
      → net.marshal_batch batch ≡ ok p
      → net.new_request method url p ≡ ok r
      → Carries r batch
  pub set_header_carries :
      (r : net.Request) (k v : Text) (batch : List AggregatedData)
      → Carries r batch
      → Carries (net.set_header r k v) batch
  pub send_stored :
      (w : net.World) (r : net.Request) (batch : List AggregatedData) (status : ℕ) (body : Text)
      → Carries r batch
      → ¬ IsRedirected w r
      → (net.send w r).0 ≡ ok (status, body)
      → 200 ≤ status
      → status < 300
      → stored (net.send w r).1 ≡ stored w ++ batch
  pub send_unsure :
      (w : net.World) (r : net.Request) (batch : List AggregatedData)
      → Carries r batch
      → (stored (net.send w r).1 ≡ stored w) ⊎ (stored (net.send w r).1 ≡ stored w ++ batch)

-- No request is redirected, and every answer is a success or an error.
pub record IsConclusive (net : Network) (d : Delivers net) : Type 0 where
  pub direct : (w : net.World) (r : net.Request) → ¬ d.IsRedirected w r
  pub answered :
      (w : net.World) (r : net.Request) (status : ℕ) (body : Text)
      → (net.send w r).0 ≡ ok (status, body)
      → ((200 ≤ status) × (status < 300)) ⊎ (400 ≤ status)

module _ (net : Network) (d : Delivers net) (conclusive : IsConclusive net d) where
  -- The batch went through and the buffer is empty, or the buffer is kept.
  abbrev pub Retained :
      Option Text × HttpExporter × net.World → List AggregatedData → net.World → Type 0
  Retained r batch w =
      ((r.0 ≡ none) × (r.1.buffer ≡ []) × (d.stored r.2 ≡ d.stored w ++ batch))
      ⊎ ((r.1.buffer ≡ batch)
          × ((d.stored r.2 ≡ d.stored w) ⊎ (d.stored r.2 ≡ d.stored w ++ batch)))

  authorize-Carries :
      (e : HttpExporter) (r : net.Request) (batch : List AggregatedData)
      → d.Carries r batch
      → d.Carries (authorize net e r) batch
  unfolding authorize
  authorize-Carries e r batch c = go (e.api_key)
    where
      typed : d.Carries (net.set_header r (text "Content-Type") (text "application/json")) batch
      typed = d.set_header_carries r _ _ batch c

      go :
          (key : Text)
          → d.Carries
              (elim key [
                | [] ↦ net.set_header r (text "Content-Type") (text "application/json")
                | c ∷ cs ↦
                    net.set_header
                      (net.set_header r (text "Content-Type") (text "application/json"))
                      (text "Authorization")
                      (text "Bearer " ++ c ∷ cs)
              ])
              batch
      go [] = typed
      go (c ∷ cs) = d.set_header_carries _ _ _ batch typed

  success :
      {status : ℕ}
      → ((200 ≤ status) × (status < 300)) ⊎ (400 ≤ status)
      → leb 400 status ≡ false
      → (200 ≤ status) × (status < 300)
  success (inl h) t = h
  success (inr h) t = absurd (ground (arith, h, t))

  -- A post that reports no error has stored its batch.
  post_cases :
      (w : net.World) (r : net.Request) (send_text status_text : Text) (batch : List AggregatedData)
      → d.Carries r batch
      → (((post net w r send_text status_text).0 ≡ none)
          × (d.stored (post net w r send_text status_text).1 ≡ d.stored w ++ batch))
        ⊎ ((m : Text) × ((post net w r send_text status_text).0 ≡ some m)
            × ((d.stored (post net w r send_text status_text).1 ≡ d.stored w)
                ⊎ (d.stored (post net w r send_text status_text).1 ≡ d.stored w ++ batch)))
  unfolding post
  post_cases w r send_text status_text batch c = elim (Result-cases (net.send w r).0) [
    | inr (m, k) ↦ inr (send_text ++ m, ground arith, d.send_unsure w r batch c)
    | inl ((status, body), k) ↦ elim (Bool-cases (leb 400 status)) [
      | inl t ↦ inr (status_error status_text status body, ground arith, d.send_unsure w r batch c)
      | inr t ↦
          let (low, high) = success (conclusive.answered w r status body k) t in
          inl
            (ground arith, d.send_stored w r batch status body c (conclusive.direct w r) k low high)
    ]
  ]

  send_batch-Retained :
      (e : HttpExporter) (w : net.World) → Retained (send_batch net e w) e.buffer w
  unfolding send_batch
  send_batch-Retained e w = elim (Result-cases (net.marshal_batch e.buffer)) [
    | inr (m, k) ↦ rw (k, send_batch) (inr (refl, inl refl))
    | inl (p, k) ↦ elim (Result-cases (net.new_request (text "POST") e.endpoint p)) [
      | inr (m, l) ↦ rw (k, l, send_batch) (inr (refl, inl refl))
      | inl (r, l) ↦
          let c = authorize-Carries e r e.buffer (d.new_request_carries _ _ e.buffer p r k l) in
          elim (post_cases w (authorize net e r) (text "failed to send analytics data: ")
            (text "analytics export failed with status ") e.buffer c) [
              | inl (quiet, stored) ↦ rw (k, l, quiet, send_batch) (inl (refl, refl, stored))
              | inr (m, failed, unsure) ↦ rw (k, l, failed, send_batch) (inr (refl, unsure))
            ]
    ]
  ]

  flush_http-Retained :
      (e : HttpExporter) (w : net.World) → Retained (flush_http net e w) e.buffer w
  unfolding flush_http
  flush_http-Retained e w = cases (e.buffer) refl (send_batch-Retained e w)
    where
      cases :
          (batch : List AggregatedData)
          → e.buffer ≡ batch
          → Retained (send_batch net e w) e.buffer w
          → Retained (elim batch [ [] ↦ (none, e, w) | _ ∷ _ ↦ send_batch net e w ]) e.buffer w
      cases [] same sent = inr (refl, inl refl)
      cases (_ ∷ _) same sent = sent

  export_http-Retained :
      (e : HttpExporter) (agg : AggregatedData) (w : net.World)
      → Retained (export_http net e agg w) (e.buffer ++ agg ∷ []) w
  unfolding export_http
  export_http-Retained e agg w =
      let e' : HttpExporter = record e { buffer = e.buffer ++ agg ∷ [] } in
      elim (Bool-cases (leb_ℤ e.batch_size (pos (length (e.buffer ++ agg ∷ []))))) [
        | inl t ↦ rw (t, export_http) (flush_http-Retained e' w)
        | inr t ↦ rw (t, export_http) (inr (refl, inl refl))
      ]

  -- Exports one after the other, whether or not one of them fails.
  unfoldable pub export_run :
      List AggregatedData → HttpExporter → net.World → HttpExporter × net.World
  export_run [] e w = (e, w)
  export_run (agg ∷ aggs) e w =
      let (failed, e', w') = export_http net e agg w in export_run aggs e' w'

  abbrev pub Among : AggregatedData → List AggregatedData → Type 0
  Among x [] = ⊥
  Among x (y ∷ ys) = (x ≡ y) ⊎ Among x ys

  -- What the server has stored, or the exporter still holds.
  abbrev pub Safe : AggregatedData → HttpExporter → net.World → Type 0
  Safe x e w = Among x (d.stored w) ⊎ Among x e.buffer

  Among-left : (x : AggregatedData) (xs ys : List AggregatedData) → Among x xs → Among x (xs ++ ys)
  Among-left x (y ∷ xs) ys (inl e) = inl e
  Among-left x (y ∷ xs) ys (inr h) = inr (Among-left x xs ys h)
  Among-left x [] ys h = absurd h

  Among-right : (x : AggregatedData) (xs ys : List AggregatedData) → Among x ys → Among x (xs ++ ys)
  Among-right x [] ys h = h
  Among-right x (y ∷ xs) ys h = inr (Among-right x xs ys h)

  Retained-Safe :
      (x : AggregatedData) (r : Option Text × HttpExporter × net.World)
      (batch : List AggregatedData) (w : net.World)
      → Retained r batch w
      → Among x (d.stored w) ⊎ Among x batch
      → Safe x r.1 r.2
  Retained-Safe x r batch w (inl (_, _, s)) (inl h) =
      inl (subst (Among x) (sym s) (Among-left x (d.stored w) batch h))
  Retained-Safe x r batch w (inl (_, _, s)) (inr h) =
      inl (subst (Among x) (sym s) (Among-right x (d.stored w) batch h))
  Retained-Safe x r batch w (inr (b, inl s)) (inl h) = inl (subst (Among x) (sym s) h)
  Retained-Safe x r batch w (inr (b, inr s)) (inl h) =
      inl (subst (Among x) (sym s) (Among-left x (d.stored w) batch h))
  Retained-Safe x r batch w (inr (b, s)) (inr h) = inr (subst (Among x) (sym b) h)

  export_http-Safe :
      (x agg : AggregatedData) (e : HttpExporter) (w : net.World)
      → Safe x e w ⊎ (x ≡ agg)
      → Safe x (export_http net e agg w).1 (export_http net e agg w).2
  export_http-Safe x agg e w h =
      Retained-Safe x (export_http net e agg w) (e.buffer ++ agg ∷ []) w
        (export_http-Retained e agg w) (there h)
    where
      there : Safe x e w ⊎ (x ≡ agg) → Among x (d.stored w) ⊎ Among x (e.buffer ++ agg ∷ [])
      there (inl (inl s)) = inl s
      there (inl (inr b)) = inr (Among-left x e.buffer (agg ∷ []) b)
      there (inr k) = inr (Among-right x e.buffer (agg ∷ []) (inl k))

  export_run-keeps :
      (x : AggregatedData) (aggs : List AggregatedData) (e : HttpExporter) (w : net.World)
      → Safe x e w ⊎ Among x aggs
      → Safe x (export_run aggs e w).0 (export_run aggs e w).1
  unfolding export_run
  export_run-keeps x [] e w (inl h) = h
  export_run-keeps x [] e w (inr h) = absurd h
  export_run-keeps x (agg ∷ aggs) e w (inl h) =
      export_run-keeps x aggs _ _ (inl (export_http-Safe x agg e w (inl h)))
  export_run-keeps x (agg ∷ aggs) e w (inr (inl k)) =
      export_run-keeps x aggs _ _ (inl (export_http-Safe x agg e w (inr k)))
  export_run-keeps x (agg ∷ aggs) e w (inr (inr h)) = export_run-keeps x aggs _ _ (inr h)

  -- Where no request is redirected and every answer that comes has a status from 200 to 299 or from
  -- 400 on: after a run of exports, whichever requests failed on the way, each aggregate that was exported is stored at the server
  -- or still in the buffer.
  pub export_run-Safe :
      (aggs : List AggregatedData) (e : HttpExporter) (w : net.World) (x : AggregatedData)
      → Among x aggs
      → Safe x (export_run aggs e w).0 (export_run aggs e w).1
  export_run-Safe aggs e w x h = export_run-keeps x aggs e w (inr h)
