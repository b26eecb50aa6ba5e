-- ===== src/Http2/Send/Run.antt =====
-- What comes of polling a response of src/http2/send_response.rs again and again.
use mathlib.Core.Path.{subst}
use dmeng.Prelude.{
  ℕ, zero, suc, ◌≡◌, refl, ap, ◌∙◌, sym, Bool, true, false, not, ◌||◌, List, [], ◌∷◌, ◌++◌, none,
  some, append_assoc, append-nil, if◌then◌else◌, Bool-cases, inl, inr,
}
use dmeng.Error.{Bytes}
use dmeng.Http2.Frame.{Frame, HeaderBlock, headers, push_promise, is_data, item}
use dmeng.Http2.Platform.{Platform}
use dmeng.Http2.Codec.{is_empty}
use dmeng.Http2.Send.{
  SendResponse, encode_response_frames, response_header_frame, response_headers, response_stream,
  data_frame,
}

abbrev pub sent_bytes : {H : Type 0} → List (Frame H) → Bytes
sent_bytes [] = []
sent_bytes (f ∷ fs) = (item f).1 ++ sent_bytes fs

-- DATA frames of one stream, of which only the last may have END_STREAM.
abbrev pub Follow : {H : Type 0} → ℕ → List (Frame H) → Type 0
Follow id [] = Unit {0}
Follow id (x ∷ xs) =
    (is_data x ≡ true) × (x.stream_id ≡ id) × (x.is_end_stream ≡ true → xs ≡ []) × Follow id xs

sent_bytes-append :
    {H : Type 0} (xs ys : List (Frame H)) → sent_bytes (xs ++ ys) ≡ sent_bytes xs ++ sent_bytes ys
sent_bytes-append [] ys = refl
sent_bytes-append (x ∷ xs) ys =
    ap (λ r. (item x).1 ++ r) (sent_bytes-append xs ys)
    ∙ sym (append_assoc (item x).1 (sent_bytes xs) (sent_bytes ys))

module _ (p : Platform) where
  -- All frames of `n` polls of a response.
  pub response_run : ℕ → SendResponse p → List (Frame p.HeaderMap)
  unfolding encode_response_frames
  response_run zero s = []
  response_run (suc n) s =
      let (ended, frames, s') = encode_response_frames p s in frames ++ response_run n s'

  -- What `n` polls of a body put out, where one that has ended is polled only if it never was.
  abbrev pub body_run : ℕ → Bool → p.Body → Bytes
  body_run zero polled b = []
  body_run (suc n) polled b =
      let (out, b') = p.poll_encode_write b in
      let more = body_run n true b' in
      let same = body_run n polled b in
      if not (p.body_is_end b) || not polled then out ++ more else same

  data_frame-Follow :
      (id : ℕ) (b : Bytes) (ended : Bool) (rest : List (Frame p.HeaderMap))
      → Follow id rest
      → (is_empty b ≡ false → ended ≡ true → rest ≡ [])
      → Follow id (data_frame p id b ended ++ rest)
  unfolding data_frame
  data_frame-Follow id [] ended rest h last = h
  data_frame-Follow id (x ∷ b) ended rest h last = (refl, refl, last refl, h)

  data_frame-sent : (id : ℕ) (b : Bytes) (ended : Bool) → sent_bytes (data_frame p id b ended) ≡ b
  unfolding data_frame
  data_frame-sent id [] ended = refl
  data_frame-sent id (x ∷ b) ended = append-nil (x ∷ b)

  abbrev is_due : SendResponse p → Bool
  is_due s = not (p.body_is_end s.response.body) || not s.encode_body

  -- One poll: the header where it is not out yet, then what the body puts out where it is polled.
  encode-due :
      (s : SendResponse p)
      → is_due s ≡ true
      → let (ended, frames, s') = encode_response_frames p s in
        let (out, b') = p.poll_encode_write s.response.body in
        (frames ≡ response_header_frame p s ++ data_frame p (response_stream p s) out ended)
        × (s'.encode_header ≡ true)
        × (s'.stream_id ≡ response_stream p s)
        × (s'.encode_body ≡ true)
        × (s'.response.body ≡ b')
        × (s'.is_end_stream ≡ (if is_empty out then s.is_end_stream else p.body_is_end b'))
        × (ended ≡ s'.is_end_stream)
  unfolding encode_response_frames
  encode-due s due = rw (due, encode_response_frames) (refl, refl, refl, refl, refl, refl, refl)

  encode-idle :
      (s : SendResponse p)
      → is_due s ≡ false
      → let (ended, frames, s') = encode_response_frames p s in
        (frames ≡ response_header_frame p s)
        × (s'.encode_header ≡ true)
        × (s'.stream_id ≡ response_stream p s)
        × (s'.encode_body ≡ s.encode_body)
        × (s'.response.body ≡ s.response.body)
        × (ended ≡ s.is_end_stream)
        × (s'.is_end_stream ≡ s.is_end_stream)
  unfolding encode_response_frames
  encode-idle s idle = rw (idle, encode_response_frames) (refl, refl, refl, refl, refl, refl, refl)

  header-begun : (s : SendResponse p) → s.encode_header ≡ true → response_header_frame p s ≡ []
  unfolding response_header_frame
  header-begun s begun = rw (begun, response_header_frame) refl

  encode-begun : (s : SendResponse p) → (encode_response_frames p s).2.encode_header ≡ true
  encode-begun s = elim (Bool-cases (is_due s)) [
    | inl due ↦ (encode-due s due).1
    | inr idle ↦ (encode-idle s idle).1
  ]

  stream-begun : (s : SendResponse p) → s.encode_header ≡ true → response_stream p s ≡ s.stream_id
  unfolding response_stream
  stream-begun s begun = rw (begun, response_stream) refl

  -- The stream of a response stays the same.
  stream-kept :
      (s : SendResponse p) → response_stream p (encode_response_frames p s).2 ≡ response_stream p s
  stream-kept s = elim (Bool-cases (is_due s)) [
    | inl due ↦
        let (frames, begun, stream, polled, body, kept, answer) = encode-due s due in
        stream-begun (encode_response_frames p s).2 begun ∙ stream
    | inr idle ↦
        let (frames, begun, stream, polled, body, out, kept) = encode-idle s idle in
        stream-begun (encode_response_frames p s).2 begun ∙ stream
  ]

  -- After the end of the body nothing comes out.
  ended-silent :
      (n : ℕ) (s : SendResponse p)
      → s.encode_header ≡ true
      → s.encode_body ≡ true
      → p.body_is_end s.response.body ≡ true
      → response_run n s ≡ []
  unfolding response_run
  ended-silent zero s begun polled over = refl
  ended-silent (suc n) s begun polled over =
      let s' = (encode_response_frames p s).2 in
      let (frames, begun', stream, polled', body, out, kept) =
        encode-idle s (rw (over, polled) refl) in
      let later = ended-silent n s' begun' (polled' ∙ polled) (ap p.body_is_end body ∙ over) in
      ap (λ fs. fs ++ response_run n s') (frames ∙ header-begun s begun) ∙ later

  -- Frames of data in the response's stream that carry what `n` polls of the body put out.
  abbrev Carries : ℕ → SendResponse p → List (Frame p.HeaderMap) → Type 0
  Carries n s fs =
      Follow (response_stream p s) fs × (sent_bytes fs ≡ body_run n s.encode_body s.response.body)

  -- One more poll in front of those.
  poll-adds :
      (n : ℕ) (s : SendResponse p)
      → let (ended, frames, s') = encode_response_frames p s in
        Carries n s' (response_run n s')
        → (fs : List (Frame p.HeaderMap)) × (frames ++ response_run n s'
            ≡ response_header_frame p s ++ fs)
          × Carries (suc n) s fs
  poll-adds n s later =
      let s' = (encode_response_frames p s).2 in
      let rest = response_run n s' in
      let follows : Follow (response_stream p s) rest =
        subst (λ id. Follow id rest) (stream-kept s) later.0 in
      elim (Bool-cases (is_due s)) [
        | inl due ↦
            let (out, b') = p.poll_encode_write s.response.body in
            let ended = (encode_response_frames p s).0 in
            let (frames, begun, stream, polled, body, kept, answer) = encode-due s due in
            let same : body_run n s'.encode_body s'.response.body ≡ body_run n true b' =
              rw (polled, body) refl in
            let now = data_frame p (response_stream p s) out ended in
            let last : is_empty out ≡ false → ended ≡ true → rest ≡ [] = λ some_out over.
              ended-silent n s' begun polled
                (ap p.body_is_end body ∙ sym (answer ∙ kept ∙ rw some_out refl) ∙ over) in
            (
              now ++ rest,
              ap (λ xs. xs ++ rest) frames ∙ append_assoc (response_header_frame p s) now rest,
              (
                data_frame-Follow (response_stream p s) out ended rest follows last,
                rw due (
                    sent_bytes-append now rest
                    ∙ ap (λ b. b ++ sent_bytes rest)
                        (data_frame-sent (response_stream p s) out ended)
                    ∙ ap (λ b. out ++ b) (later.1 ∙ same)),
              ),
            )
        | inr idle ↦
            let (frames, begun, stream, polled, body, out, kept) = encode-idle s idle in
            let same : body_run n s'.encode_body s'.response.body
                ≡ body_run n s.encode_body s.response.body =
              rw (polled, body) refl in
            (rest, ap (λ xs. xs ++ rest) frames, (follows, rw idle (later.1 ∙ same)))
      ]

  started-data :
      (n : ℕ) (s : SendResponse p) → s.encode_header ≡ true → Carries n s (response_run n s)
  unfolding response_run
  started-data zero s begun = (tt, refl)
  started-data (suc n) s begun =
      let s' = (encode_response_frames p s).2 in
      let (fs, split, carried) = poll-adds n s (started-data n s' (encode-begun s)) in
      let only : response_run (suc n) s ≡ fs = split ∙ ap (λ h. h ++ fs) (header-begun s begun) in
      rw only carried

  -- The announcement of a response: HEADERS in its stream, or PUSH_PROMISE of the stream that is pushed.
  abbrev pub Announces : SendResponse p → Frame p.HeaderMap → Type 0
  Announces s f =
      let (fields, nothing) = response_headers p s.response in
      let block : HeaderBlock p.HeaderMap = record {
        fields = fields;
        status = some s.response.status;
        method = none;
      } in
      (f.stream_id ≡ s.stream_id)
      × (f.is_end_headers ≡ true)
      × (f.is_end_stream ≡ nothing)
      × (s.push_id ≡ none → f.kind ≡ headers block)
      × ((id : ℕ) → s.push_id ≡ some id → f.kind ≡ push_promise id block)

  -- The stream of the body.
  abbrev pub body_stream : SendResponse p → ℕ
  body_stream s = elim s.push_id [ none ↦ s.stream_id | some id ↦ id ]

  header-fresh :
      (s : SendResponse p)
      → s.encode_header ≡ false
      → (f : Frame p.HeaderMap) × (response_header_frame p s ≡ f ∷ []) × Announces s f
  unfolding response_header_frame
  header-fresh s fresh =
      rw (fresh, response_header_frame)
        (_, refl, (refl, refl, refl, λ e. rw e refl, λ id e. rw e refl))

  stream-fresh :
      (s : SendResponse p) → s.encode_header ≡ false → response_stream p s ≡ body_stream s
  unfolding response_stream
  stream-fresh s fresh = rw (fresh, response_stream) refl

  -- However often a response is polled whose header is not out yet, at least once: its frames are one
  -- HEADERS frame, or PUSH_PROMISE where it is pushed, with the response's header, END_HEADERS, and
  -- END_STREAM where the header says that there is no body; and then DATA frames of its stream or of the
  -- promised one, none but the last with END_STREAM, whose bytes together are what these polls of the body
  -- put out.
  pub response_run-once :
      (n : ℕ) (s : SendResponse p)
      → s.encode_header ≡ false
      → (f : Frame p.HeaderMap) × (fs : List (Frame p.HeaderMap)) × (response_run (suc n) s
          ≡ f ∷ fs)
        × Announces s f
        × Follow (body_stream s) fs
        × (sent_bytes fs ≡ body_run (suc n) s.encode_body s.response.body)
  unfolding response_run
  response_run-once n s fresh =
      let s' = (encode_response_frames p s).2 in
      let (fs, split, carried) = poll-adds n s (started-data n s' (encode-begun s)) in
      let (f, first, announced) = header-fresh s fresh in
      (
        f,
        fs,
        split ∙ ap (λ h. h ++ fs) first,
        announced,
        subst (λ id. Follow id fs) (stream-fresh s fresh) carried.0,
        carried.1,
      )
