-- ===== src/HttpHelper.antt =====
-- src/http_helper.rs: a request goes through the middlewares to the handler, and its response back. What
-- they do to what stands outside of the message is a change of `W`, and a handler and a middleware are
-- functions (src/middle/mod.rs and the trait of the handler).
pub mod Calls
pub mod Order
mod Examples
use Prim.Native.String.{String}
use mathlib.Core.List.{reverse}
use dmeng.Prelude.{
  ℕ, Bool, true, false, not, ◌&&◌, ◌||◌, Option, none, some, List, [], ◌∷◌, ltb, ◌==◌,
  if◌then◌else◌,
}
use dmeng.Prelude.Poll.{Outcome, pending, ok, err, panic, spin, ◌>>>◌}
use dmeng.Error.{ProtError}
use dmeng.HeaderHelper.{Headers, Version}

pub record Middleware (Req Res W : Type 0) : Type 0 where
  pub process_request : Req → W → Outcome ProtError (Option Res) × Req × W
  pub process_response : Res → W → Outcome ProtError (Unit {0}) × Res × W
  pub process_error : ProtError → W → W

-- `middle_operate` may also put middlewares in.
pub record HttpTrait (Req Res W : Type 0) : Type 0 where
  pub operate : Req → W → Outcome ProtError Res × W
  pub middle_operate :
      Req
      → List (Middleware Req Res W)
      → W
      → Outcome ProtError (Unit {0}) × Req × List (Middleware Req Res W) × W

-- Requests and responses, as far as the helper reads and changes them. `get_body_len` is `none` where it
-- is negative, and `server_error` the response with the status 500.
pub record Messages : Type 1 where
  pub words : Headers
  pub Req : Type 0
  pub Res : Type 0
  pub Addr : Type 0
  pub accept_encoding : Req → Option words.Value
  pub insert_client : Addr → Req → Req
  pub set_version : Version → Res → Res
  pub get_body_len : Res → Option ℕ
  pub content_encoding : Res → Option words.Value
  pub body_is_end : Res → Bool
  pub origin_len : Res → ℕ
  pub insert_encoding : String → Res → Res
  pub server_error : Res

module _ (m : Messages) where
  abbrev accepts : String → m.Req → Bool
  accepts word r = elim (m.accept_encoding r) [ none ↦ false | some v ↦ m.words.contains word v ]

  is_zero : Option ℕ → Bool
  is_zero none = false
  is_zero (some n) = n == 0

  is_unset : Option m.words.Value → Bool
  is_unset none = true
  is_unset (some v) = false

  -- The encoding that a response is given where nothing has set one and its length is open.
  unfoldable pub encode : Bool → Bool → Bool → m.Res → m.Res
  unfolding is_zero is_unset
  encode gzip deflate br res =
      if is_zero (m.get_body_len res)
        && (is_unset (m.content_encoding res)
            && (not (m.body_is_end res) || ltb 1024 (m.origin_len res)))
      then (if gzip
          then m.insert_encoding "gzip" res
          else if br
          then m.insert_encoding "br" res
          else if deflate
          then m.insert_encoding "deflate" res
          else res)
      else res

  abbrev insert_addr : Option m.Addr → m.Req → m.Req
  insert_addr none r = r
  insert_addr (some addr) r = m.insert_client addr r

module _ (m : Messages) (W : Type 0) where
  abbrev Middle : Type 0
  Middle = Middleware m.Req m.Res W

  -- The first middleware that answers ends the loop.
  unfoldable pub process_requests :
      List Middle → m.Req → W → Outcome ProtError (Option m.Res) × m.Req × W
  process_requests [] r w = (ok none, r, w)
  process_requests (x ∷ xs) r w =
      let a = x.process_request r w in
      let rest = process_requests xs a.1 a.2 in
      elim a.0 [
        | ok res ↦ elim res [ none ↦ rest | some s ↦ (ok (some s), a.1, a.2) ]
        | pending ↦ (pending, a.1, a.2)
        | err e ↦ (err e, a.1, a.2)
        | panic ↦ (panic, a.1, a.2)
        | spin ↦ (spin, a.1, a.2)
      ]

  unfoldable pub process_errors : List Middle → ProtError → W → W
  process_errors [] e w = w
  process_errors (x ∷ xs) e w = process_errors xs e (x.process_error e w)

  -- The middlewares in the order that is given.
  unfoldable pub process_responses : List Middle → m.Res → W → Outcome ProtError m.Res × W
  process_responses [] res w = (ok res, w)
  process_responses (x ∷ xs) res w =
      let a = x.process_response res w in (a.0, a.2) >>> λ u v. process_responses xs a.1 v

  -- The handler's response, or that of an error, which every middleware is told.
  unfoldable pub operated :
      Version
      → List Middle
      → Bool
      → Bool
      → Bool
      → Outcome ProtError m.Res × W
      → Outcome ProtError m.Res × W
  operated version middles gzip deflate br (ok res, w) =
      (ok (encode m gzip deflate br (m.set_version version res)), w)
  operated version middles gzip deflate br (err e, w) =
      (ok m.server_error, process_errors middles e w)
  operated version middles gzip deflate br (pending, w) = (pending, w)
  operated version middles gzip deflate br (panic, w) = (panic, w)
  operated version middles gzip deflate br (spin, w) = (spin, w)

  -- The response goes back through all the middlewares, the last one first.
  unfoldable pub handle_request :
      Version
      → Option m.Addr
      → m.Req
      → HttpTrait m.Req m.Res W
      → List Middle
      → W
      → Outcome ProtError m.Res × W
  handle_request version addr r f middles w =
      let gzip = accepts m "gzip" r in
      let deflate = accepts m "deflate" r in
      let br = accepts m "br" r in
      let b = f.middle_operate (insert_addr m addr r) middles w in
      (b.0, b.3) >>> λ u w₁.
      (let a = process_requests b.2 b.1 w₁ in
        (a.0, a.2) >>> λ early w₂.
        ((elim early [
          | some res ↦ (ok res, w₂)
          | none ↦ operated version b.2 gzip deflate br (f.operate a.1 w₂)
        ])
          >>> λ res w₃. process_responses (reverse b.2) res w₃))
