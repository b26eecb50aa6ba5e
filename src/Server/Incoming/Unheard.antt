-- ===== src/Server/Incoming/Unheard.antt =====
-- `incoming` of src/server.rs without a handler of requests, as a server that is only there for WebSocket.
use Prim.Native.String.{String}
use text.Mathlib.Text.{◌==◌ as str_eq}
use dmeng.Prelude.{ℕ, suc, ◌≡◌, ◌≢◌, refl, ap, ◌∙◌, Option, none, some, ◌⊎◌, inl, inr}
use dmeng.Prelude.Poll.{Outcome, pending, ok, err, panic, spin, ◌>>>◌}
use dmeng.Error.{ProtError, RequestRef, extension, server_upgrade_ws}
use dmeng.Server.Parts.{Parts}
use dmeng.Server.Setup.{Server, flush}
use dmeng.Server.Incoming.{
  Next, ended, next_request, handle_error, handle_close, sort_request, inner_incoming, answered,
  on_error, dispatched, round, incoming_loop, by_error, go_on, counted, upgrade_ws,
}
use dmeng.Server.Incoming.Served.{by_connection-keeps}
use dmeng.Server.Incoming.Sorting.{if-keeps}

lost_stays {ℓ} :
    {A B : Type 0} {S : Type ℓ} (r : Outcome ProtError A × S) (f : A → S → Outcome ProtError B × S)
    (e : ProtError)
    → r.0 ≡ err e
    → (r >>> f).0 ≡ err e
lost_stays (o, s) f e h = ap (λ q. ((q, s) >>> f).0) h

module _ (x : Parts) where
  abbrev IsDeaf : Outcome ProtError (Option RequestRef) × Server x → Type 0
  IsDeaf r = r.1.callback_http ≡ none

  sort_request-IsDeaf :
      (o : Option String) (r : RequestRef) (s : Server x)
      → s.callback_http ≡ none
      → IsDeaf (sort_request x o r s)
  unfolding sort_request counted
  sort_request-IsDeaf none r s k = k
  sort_request-IsDeaf (some p) r s k =
      if-keeps IsDeaf (str_eq p "h2c") _ _ k (if-keeps IsDeaf (str_eq p "websocket") _ _ k k)

  sorted-IsDeaf :
      (a : Outcome ProtError (Option RequestRef) × Server x)
      → IsDeaf a
      → IsDeaf (
          a >>> λ o t. (elim o [
            | none ↦ (ok none, flush x t)
            | some r ↦ sort_request x (x.upgrade_protocol r) r t
          ]))
  unfolding flush
  sorted-IsDeaf (ok none, t) k =
      by_connection-keeps (λ (v : Server x). v.callback_http ≡ none) _ _ _ t.http1 t.http2 (λ h. k)
        (λ h. k) k
  sorted-IsDeaf (ok (some r), t) k = sort_request-IsDeaf (x.upgrade_protocol r) r t k
  sorted-IsDeaf (pending, t) k = k
  sorted-IsDeaf (err e, t) k = k
  sorted-IsDeaf (panic, t) k = k
  sorted-IsDeaf (spin, t) k = k

  inner_incoming-IsDeaf : (s : Server x) → s.callback_http ≡ none → IsDeaf (inner_incoming x s)
  unfolding inner_incoming next_request
  inner_incoming-IsDeaf s k = sorted-IsDeaf (next_request x s) (
      by_connection-keeps (λ (r : Outcome ProtError (Option RequestRef) × Server x). IsDeaf r) _ _ _
        s.http1 s.http2 (λ h. k) (λ h. k) k)

  abbrev no_callback : Outcome ProtError (Next x)
  no_callback = err (extension "http callback is none")

  failed-Deaf :
      (e : ProtError) (t : Server x)
      → t.callback_http ≡ none
      → (answered x (handle_error x e t)).0 ≡ no_callback
  unfolding handle_error answered handle_close
  failed-Deaf e t k = rw (k, handle_error) (rw (k, handle_close) refl)

  closed-Deaf :
      (o : Outcome ProtError (Next x)) (t : Server x)
      → t.callback_http ≡ none
      → (handle_close x t >>> λ u v. (o, v)).0 ≡ no_callback
  unfolding handle_close
  closed-Deaf o t k = rw (k, handle_close) refl

  on_error-Deaf :
      (e : ProtError) (t : Server x)
      → t.callback_http ≡ none
      → ((r : RequestRef) → e ≢ server_upgrade_ws r)
      → (on_error x e t).0 ≡ no_callback
  unfolding on_error
  on_error-Deaf e t k n =
      let failed = failed-Deaf e t k in
      elim e
          as (λ e'.
            (e ≡ e')
            → (by_error (λ b r. answered x (handle_error x e t))
                (λ r. upgrade_ws x t.callback_ws r t) (answered x (handle_error x e t)) e').0
              ≡ no_callback) [
                | server_upgrade_ws r ↦ λ same. absurd (n r same)
                | _ ↦ λ same. failed
              ]
        refl

  dispatched-Deaf :
      (a : Outcome ProtError (Option RequestRef) × Server x)
      → a.1.callback_http ≡ none
      → (a.0 ≡ ok none)
        ⊎ ((e : ProtError) × (a.0 ≡ err e) × ((r : RequestRef) → e ≢ server_upgrade_ws r))
      → (dispatched x a).0 ≡ no_callback
  unfolding dispatched
  dispatched-Deaf (o, t) k (inl i) =
      ap (λ q. (dispatched x (q, t)).0) i ∙ closed-Deaf (ok ended) t k
  dispatched-Deaf (o, t) k (inr (e, i, n)) =
      ap (λ q. (dispatched x (q, t)).0) i ∙ on_error-Deaf e t k n

  -- Where no handler of requests is set, as for WebSocket alone, the end of the connection and every error
  -- but the move to WebSocket are answered by one and the same error: the end is no end, and the error that
  -- came is lost.
  pub incoming_loop-unheard :
      (fuel : ℕ) (s : Server x)
      → s.callback_http ≡ none
      → ((inner_incoming x s).0 ≡ ok none)
        ⊎ ((e : ProtError) × ((inner_incoming x s).0 ≡ err e)
            × ((r : RequestRef) → e ≢ server_upgrade_ws r))
      → (incoming_loop x (suc fuel) s).0 ≡ err (extension "http callback is none")
  unfolding incoming_loop round
  incoming_loop-unheard fuel s k h =
      let lost = dispatched-Deaf (inner_incoming x s) (inner_incoming-IsDeaf s k) h in
      lost_stays (dispatched x (inner_incoming x s)) (λ n t. go_on x (incoming_loop x fuel t) n t)
        (extension "http callback is none") lost
