-- ===== src/HttpHelper/Order.antt =====
-- The order in which src/http_helper.rs calls middlewares and handler.
use mathlib.Core.List.{reverse}
use dmeng.Prelude.{
  ◌≡◌, refl, sym, ap, ◌∙◌, Option, none, some, List, [], ◌∷◌, ◌++◌, append_assoc, append-nil,
}
use dmeng.Prelude.Poll.{Outcome, pending, ok, err, panic, spin, ◌>>>◌}
use dmeng.Error.{ProtError}
use dmeng.HeaderHelper.{Version}
use dmeng.HttpHelper.{
  Middleware, Messages, accepts, encode, insert_addr, process_responses, operated, handle_request,
}
use dmeng.HttpHelper.Calls.{
  Call, handles, Behaviour, numbered, handler, answered, changed, asked, told, way_out,
  process_errors-numbered, process_requests-numbered, process_responses-all,
}

module _ (m : Messages) where
  -- The handler's response, with the version and an encoding, or that of an error, of which every
  -- middleware is told; and the calls.
  abbrev pub handled :
      Version
      → (m.Res → m.Res)
      → List (Behaviour m)
      → Outcome ProtError m.Res
      → Outcome ProtError m.Res × List Call
  handled version encoded bs (ok res) = (ok (encoded (m.set_version version res)), handles ∷ [])
  handled version encoded bs (err e) = (ok m.server_error, handles ∷ told m 0 bs)
  handled version encoded bs pending = (pending, handles ∷ [])
  handled version encoded bs panic = (panic, handles ∷ [])
  handled version encoded bs spin = (spin, handles ∷ [])

  -- What the way out starts with: an early response, or that for the handler; an error ends it all.
  abbrev pub reached :
      Outcome ProtError (Option m.Res)
      → Outcome ProtError m.Res × List Call
      → Outcome ProtError m.Res × List Call
  reached (ok none) late = late
  reached (ok (some res)) late = (ok res, [])
  reached pending late = (pending, [])
  reached (err e) late = (err e, [])
  reached panic late = (panic, [])
  reached spin late = (spin, [])

  abbrev pub encoding : m.Req → m.Res → m.Res
  encoding r res = encode m (accepts m "gzip" r) (accepts m "deflate" r) (accepts m "br" r) res

  abbrev behind :
      List Call → Outcome ProtError m.Res × List Call → Outcome ProtError m.Res × List Call
  behind w q = (q.0, w ++ q.1)

  -- Whatever middlewares `middle_operate` leaves, that answer, fail or change what they like, and a handler
  -- that answers or fails: the middlewares are asked in their order up to the first that answers or fails,
  -- with the request as the address, `middle_operate` and those before have made it. A failure on this way
  -- is the answer, and nothing else is called. Where none answers, the handler is called; its response
  -- gets the version and the encoding, and for its error every middleware is told of it and the response
  -- is the server error. Then all of them finish the response, the last one first, up to the first that
  -- fails.
  pub handle_request-order :
      (version : Version) (addr : Option m.Addr) (r : m.Req) (enter : m.Req → m.Req)
      (reply : m.Req → Outcome ProtError m.Res) (bs : List (Behaviour m))
      (ms : List (Middleware m.Req m.Res (List Call)))
      → let r' = enter (insert_addr m addr r) in
        let late = handled version (encoding r) bs (reply (changed m bs r')) in
        handle_request m (List Call) version addr r (handler m enter bs reply) ms []
        ≡ behind (asked m 0 bs r') (reached (answered m bs r') late) >>> λ res w.
            behind w (way_out m 0 bs res)
  unfolding handle_request operated
  handle_request-order version addr r enter reply bs ms =
      ap (λ a. (a.0, a.2) >>> λ early w. back (after early a.1 w))
        (process_requests-numbered m 0 bs r' [])
      ∙ answering (answered m bs r')
    where
      r' : m.Req
      r' = enter (insert_addr m addr r)

      called : List Call
      called = asked m 0 bs r'

      back : Outcome ProtError m.Res × List Call → Outcome ProtError m.Res × List Call
      back x = x >>> λ res w. process_responses m (List Call) (reverse (numbered m 0 bs)) res w

      operating : Outcome ProtError m.Res → List Call → Outcome ProtError m.Res × List Call
      operating o w =
          operated m (List Call) version (numbered m 0 bs) (accepts m "gzip" r)
            (accepts m "deflate" r) (accepts m "br" r) (o, w ++ handles ∷ [])

      after : Option m.Res → m.Req → List Call → Outcome ProtError m.Res × List Call
      after early q w = elim early [ some res ↦ (ok res, w) | none ↦ operating (reply q) w ]

      handling :
          (o : Outcome ProtError m.Res)
          → back (operating o called)
            ≡ behind called (handled version (encoding r) bs o) >>> λ res w.
                behind w (way_out m 0 bs res)
      handling (ok res) =
          process_responses-all m bs (encoding r (m.set_version version res))
            (called ++ handles ∷ [])
      handling (err e) =
          ap (λ w. process_responses m (List Call) (reverse (numbered m 0 bs)) m.server_error w)
            (process_errors-numbered m 0 bs e (called ++ handles ∷ [])
              ∙ append_assoc called (handles ∷ []) (told m 0 bs))
          ∙ process_responses-all m bs m.server_error (called ++ handles ∷ told m 0 bs)
      handling pending = refl
      handling panic = refl
      handling spin = refl

      answering :
          (o : Outcome ProtError (Option m.Res))
          → ((o, called) >>> λ early w. back (after early (changed m bs r') w))
            ≡ behind called (reached o (handled version (encoding r) bs (reply (changed m bs r'))))
              >>> λ res w. behind w (way_out m 0 bs res)
      answering (ok none) = handling (reply (changed m bs r'))
      answering (ok (some res)) =
          process_responses-all m bs res called
          ∙ ap (λ v. behind v (way_out m 0 bs res)) (sym (append-nil called))
      answering pending = ap (λ v. (pending, v)) (sym (append-nil called))
      answering (err e) = ap (λ v. (err e, v)) (sym (append-nil called))
      answering panic = ap (λ v. (panic, v)) (sym (append-nil called))
      answering spin = ap (λ v. (spin, v)) (sym (append-nil called))
