-- ===== src/Ws/Ending.antt =====
-- The end of a WebSocket connection of src/ws/server_connection.rs.
use dmeng.Prelude.{ℕ, suc, ◌≡◌, refl, ap, Option, none, ◌∙◌}
use mathlib.Core.Path.{subst, sym}
use dmeng.Prelude.Poll.{Outcome, ok, ◌>>>◌, >>>_ok, >>>_was_ok}
use dmeng.Error.{ProtError}
use dmeng.Ws.Platform.{Platform}
use dmeng.Ws.State.{closing, closed, set_closed}
use dmeng.Ws.Server.{ServerWsConnection, poll_next, poll_loop, poll_closing, shutdown, poll_write}

module _ {S : Type 0} (r : Outcome ProtError (Unit {0}) × S)
    (step : S → Outcome ProtError (Unit {0}) × S) (last : S → S) where
  second : Unit {0} → S → Outcome ProtError (Unit {0}) × S
  second u d = step d >>> λ v f. (ok tt, last f)

  -- Two steps and a change of the state that answer a value have all been made.
  both_done : (u : Unit {0}) → (r >>> second).0 ≡ ok u → (r >>> second) ≡ (ok tt, last (step r.1).1)
  unfolding second
  both_done u h =
      let a = >>>_was_ok r second u h in
      let e = >>>_ok r second a.0 a.1 in
      let k : (step r.1 >>> λ v f. (ok tt, last f)).0 ≡ ok u = subst (λ x. x.0 ≡ ok u) e h in
      let b = >>>_was_ok (step r.1) (λ v f. (ok tt, last f)) u k in
      e ∙ >>>_ok (step r.1) (λ v f. (ok tt, last f)) b.0 b.1

module _ (p : Platform) (randoms : ℕ → ℕ) (c : ServerWsConnection p) where
  ended : ServerWsConnection p
  unfolding shutdown poll_write
  ended =
      let f = (poll_write p randoms (shutdown p c).1).1 in
      record f { state = set_closed p none f.state }

  poll_closing-ended :
      (u : Unit {0})
      → (poll_closing p randoms c).0 ≡ ok u
      → poll_closing p randoms c ≡ (ok tt, ended)
  unfolding poll_closing ended second
  poll_closing-ended u h =
      both_done (shutdown p c) (poll_write p randoms)
        (λ f. record f { state = set_closed p none f.state }) u h

  closing_round :
      (d : p.CloseData) (now : ℕ)
      → c.state ≡ closing d
      → poll_next p now randoms c
        ≡ (poll_closing p randoms c >>> λ u f. poll_loop p 1 now randoms f)
  unfolding poll_next poll_loop
  closing_round d now e = rw e refl

  ended-IsClosed : (d : p.CloseData) → c.state ≡ closing d → ended.state ≡ closed d
  unfolding ended set_closed shutdown poll_write
  ended-IsClosed d e = ap (set_closed p none) e

-- A closed connection stays as it is.
closed_round :
    (p : Platform) (randoms : ℕ → ℕ) (c : ServerWsConnection p) (d : p.CloseData) (n now : ℕ)
    → c.state ≡ closed d
    → poll_loop p (suc n) now randoms c ≡ (ok none, c)
unfolding poll_loop
closed_round p randoms c d n now e = rw e refl

module _ (p : Platform) (randoms : ℕ → ℕ) (c : ServerWsConnection p) where
  poll_next-closing :
      (d : p.CloseData) (m : Option p.Message) (now : ℕ)
      → c.state ≡ closing d
      → (poll_next p now randoms c).0 ≡ ok m
      → poll_next p now randoms c ≡ (ok none, ended p randoms c)
  poll_next-closing d m now e h =
      let next : Unit {0}
          → ServerWsConnection p
          → Outcome ProtError (Option p.Message) × ServerWsConnection p =
        λ u f. poll_loop p 1 now randoms f in
      let round = closing_round p randoms c d now e in
      let a = >>>_was_ok (poll_closing p randoms c) next m (subst (λ x. x.0 ≡ ok m) round h) in
      round
      ∙ >>>_ok (poll_closing p randoms c) next a.0 a.1
      ∙ ap (λ r. poll_loop p 1 now randoms r.1) (poll_closing-ended p randoms c a.0 a.1)
      ∙ closed_round p randoms (ended p randoms c) d 0 now (ended-IsClosed p randoms c d e)

  -- A connection that closes, and whose poll is ready without an error: it hands out no message, it is
  -- closed with the data that it was to close with, and a later poll finds it so.
  pub poll_next-ended :
      (d : p.CloseData) (m : Option p.Message) (now later : ℕ)
      → c.state ≡ closing d
      → (poll_next p now randoms c).0 ≡ ok m
      → (m ≡ none)
        × ((poll_next p now randoms c).1.state ≡ closed d)
        × (poll_next p later randoms (poll_next p now randoms c).1
            ≡ (ok none, (poll_next p now randoms c).1))
  unfolding poll_next
  poll_next-ended d m now later e h =
      let k = poll_next-closing d m now e h in
      let s = ended-IsClosed p randoms c d e in
      let r : ok m ≡ ok none = sym h ∙ ap (λ x. x.0) k in
      (
        cc,
        subst (λ x. x.1.state ≡ closed d) (sym k) s,
        subst (λ x. poll_next p later randoms x.1 ≡ (ok none, x.1)) (sym k)
            (closed_round p randoms (ended p randoms c) d 1 later s),
      )
