-- ===== src/Http2/InnerStream/Deliver.antt =====
-- The way of a stream's data to the request's body, in src/http2/inner_stream.rs.
use mathlib.Core.Path.{subst}
use dmeng.Prelude.{
  List-cases, ℕ, zero, suc, ◌<◌, ◌≡◌, refl, ap, sym, ◌∙◌, Bool, true, false, Option, none, some,
  List, [], ◌∷◌, ◌++◌, append_assoc, append-nil, length, arith, Bool-cases, ◌⊎◌, inl, inr,
}
use dmeng.Prelude.Poll.{
  Outcome, pending, ok, err, panic, spin, split, is_pending, is_ok, is_err, is_panic, is_spin,
}
use dmeng.Error.{Bytes, ProtError, extension}
use dmeng.Http2.Frame.{Frame, Kind, payload, is_data, item, itemised, AllData}
use dmeng.Http2.Platform.{Platform}
use dmeng.Http2.InnerStream.{InnerStream, send_loop, poll_send, deliver}

-- With no sender and a frame left the loop of `poll_send` goes round for ever: it is still running after
-- any number of rounds.
pub send_loop-spins :
    (p : Platform) (fuel : ℕ) (s : InnerStream p)
    → s.sender ≡ none
    → 0 < length s.frames
    → (send_loop p fuel s).0 ≡ spin
unfolding send_loop
send_loop-spins p zero s closed some_left = refl
send_loop-spins p (suc fuel) s closed some_left =
    ground (arith, send_loop-spins p fuel s closed some_left)

-- The documented behaviour of the channel: what was put into it is there in order, and reserving a
-- slot leaves it as it is.
pub record ChannelLaws (p : Platform) : Type 1 where
  pub items : p.Channel → List (Bool × Bytes)
  pub items-reserve : (ch : p.Channel) → items (p.poll_reserve ch).1 ≡ items ch
  pub items-send :
      (x : Bool × Bytes) (ch : p.Channel) → items (p.send_item x ch) ≡ items ch ++ x ∷ []

module _ (p : Platform) (l : ChannelLaws p) where
  abbrev pub items_of : Option p.Channel → List (Bool × Bytes)
  items_of none = []
  items_of (some ch) = l.items ch

  abbrev pub delivered : InnerStream p → List (Bool × Bytes)
  delivered s = items_of s.sender

  data_kind :
      (k : Kind p.HeaderMap)
      → elim k [ payload b ↦ true | _ ↦ false ] ≡ true
      → (b : Bytes) × (k ≡ payload b)
  data_kind (payload b) h = (b, refl)
  data_kind _ h = cc

  -- One data frame moves from the stream to the channel, whether or not the length is too much.
  deliver-moves :
      (f : Frame p.HeaderMap) (rest : List (Frame p.HeaderMap)) (ch : p.Channel) (s : InnerStream p)
      → is_data f ≡ true
      → let s' = (deliver p f rest ch s).1 in
        (s'.frames ≡ rest)
        × ((ch' : p.Channel) × (s'.sender ≡ some ch') × (l.items ch' ≡ l.items ch ++ item f ∷ []))
  unfolding deliver
  deliver-moves f rest ch s d =
      let (b, k) = data_kind f.kind d in
      rw (k, deliver)
        (refl, (p.send_item (f.is_end_stream, b) ch, refl, l.items-send (f.is_end_stream, b) ch))

  -- Any other frame is taken from the stream.
  deliver-other :
      (f : Frame p.HeaderMap) (rest : List (Frame p.HeaderMap)) (ch : p.Channel) (s : InnerStream p)
      → is_data f ≡ false
      → deliver p f rest ch s
        ≡ (err (extension "must be data frame"), record s { frames = rest; sender = some ch })
  unfolding deliver
  deliver-other f rest ch s d = ground (arith, d)

  -- Of the frames that waited, data came first and is in the channel behind what was there, in order, and
  -- all behind it still wait; or the one behind it is no data, is lost, and the answer is an error.
  abbrev pub Passes :
      List (Frame p.HeaderMap)
      → List (Bool × Bytes)
      → Outcome ProtError Bool × InnerStream p
      → Type 0
  Passes waiting before (out, s') =
      (ds : List (Frame p.HeaderMap)) × AllData ds
      × (delivered s' ≡ before ++ itemised ds)
      × ((waiting ≡ ds ++ s'.frames)
          ⊎ ((v : Frame p.HeaderMap) × (is_data v ≡ false)
              × (waiting ≡ ds ++ v ∷ s'.frames)
              × (out ≡ err (extension "must be data frame"))))

  waits-Passes :
      (out : Outcome ProtError Bool) (s : InnerStream p) (before : List (Bool × Bytes))
      → delivered s ≡ before
      → Passes s.frames before (out, s)
  waits-Passes out s before e = ([], tt, e ∙ sym (append-nil before), inl refl)

  data-Passes :
      (f : Frame p.HeaderMap) (rest : List (Frame p.HeaderMap)) (before : List (Bool × Bytes))
      (r : Outcome ProtError Bool × InnerStream p)
      → is_data f ≡ true
      → Passes rest (before ++ item f ∷ []) r
      → Passes (f ∷ rest) before r
  data-Passes f rest before r d (ds, all, sent, left) = (
    f ∷ ds,
    (d, all),
    sent ∙ append_assoc before (item f ∷ []) (itemised ds),
    elim left [
      | inl same ↦ inl (ap (λ t. f ∷ t) same)
      | inr (v, other, same, refused) ↦ inr (v, other, ap (λ t. f ∷ t) same, refused)
    ],
  )

  send_loop-Passes :
      (fuel : ℕ) (s : InnerStream p) (ch : p.Channel)
      → s.sender ≡ some ch
      → Passes s.frames (l.items ch) (send_loop p fuel s)
  unfolding send_loop
  send_loop-Passes zero s ch open_ = waits-Passes spin s (l.items ch) (ap items_of open_)
  send_loop-Passes (suc fuel) s ch open_ = elim (List-cases s.frames) [
    | inl none_left ↦
        rw (none_left, send_loop)
          ([], tt, ap items_of open_ ∙ sym (append-nil (l.items ch)), inl (sym none_left))
    | inr (f, rest, some_left) ↦
        let ch' = (p.poll_reserve ch).1 in
        let same = l.items-reserve ch in
        elim (Bool-cases (p.poll_reserve ch).0) [
          | inr full ↦
              rw (some_left, send_loop)
                (rw (open_, send_loop)
                  (rw (full, send_loop)
                    ([], tt, same ∙ sym (append-nil (l.items ch)), inl (sym some_left))))
          | inl room ↦
              let s₁ = (deliver p f rest ch' s).1 in
              rw (some_left, send_loop)
                (rw (open_, send_loop)
                  (rw (room, send_loop)
                    (elim (Bool-cases (is_data f)) [
                      | inr other ↦
                          let o = deliver-other f rest ch' s other in
                          rw (ap (λ x. x.0) o, send_loop)
                            (
                              [],
                              tt,
                              ap (λ x. items_of x.1.sender) o
                                  ∙ same
                                  ∙ sym (append-nil (l.items ch)),
                              inr (f, other, ap (λ x. f ∷ x.1.frames) (sym o), refl),
                            )
                      | inl data_ ↦
                          let (left, (ch₁, open₁, moved)) = deliver-moves f rest ch' s data_ in
                          let behind : l.items ch₁ ≡ l.items ch ++ item f ∷ [] =
                            moved ∙ ap (λ t. t ++ item f ∷ []) same in
                          let stopped : (out : Outcome ProtError Bool)
                              → Passes (f ∷ rest) (l.items ch) (out, s₁) =
                            λ out.
                              data-Passes f rest (l.items ch) (out, s₁) data_
                                (subst (λ t. Passes t (l.items ch ++ item f ∷ []) (out, s₁)) left
                                  (waits-Passes out s₁ (l.items ch ++ item f ∷ [])
                                    (ap items_of open₁ ∙ behind))) in
                          elim (split (deliver p f rest ch' s).0) [
                            | is_ok u e ↦
                                rw (e, send_loop)
                                  (data-Passes f rest (l.items ch) (send_loop p fuel s₁) data_ (
                                    subst
                                      (λ t.
                                        Passes t (l.items ch ++ item f ∷ []) (send_loop p fuel s₁))
                                      left
                                      (subst (λ b. Passes s₁.frames b (send_loop p fuel s₁)) behind
                                        (send_loop-Passes fuel s₁ ch₁ open₁))))
                            | is_pending e ↦ rw (e, send_loop) (stopped pending)
                            | is_err x e ↦ rw (e, send_loop) (stopped (err x))
                            | is_panic e ↦ rw (e, send_loop) (stopped panic)
                            | is_spin e ↦ rw (e, send_loop) (stopped spin)
                          ]
                    ])))
        ]
  ]

  -- For a stream with a channel, whatever frames wait, on every branch of `poll_send`: the data in front
  -- that was taken is in the body's channel, in order, behind what was there, and all frames behind it
  -- still wait; or the frame behind it is no data, it alone is lost, and the answer is an error.
  pub poll_send-delivers :
      (s : InnerStream p) (ch : p.Channel)
      → s.sender ≡ some ch
      → Passes s.frames (delivered s) (poll_send p s)
  unfolding poll_send
  poll_send-delivers s ch open_ = elim (Bool-cases s.is_builder) [
    | inr unbuilt ↦ rw (unbuilt, poll_send) (waits-Passes (ok false) s (delivered s) refl)
    | inl built ↦
        rw (built, poll_send)
          (subst (λ b. Passes s.frames b (send_loop p (suc (length s.frames)) s))
            (ap items_of (sym open_)) (send_loop-Passes (suc (length s.frames)) s ch open_))
  ]
