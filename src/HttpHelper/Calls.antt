-- ===== src/HttpHelper/Calls.antt =====
-- What a middleware and a handler of src/http_helper.rs do and note, and the ways in and out through them.
use mathlib.Core.List.{reverse, reverse-append}
use dmeng.Prelude.{
  ℕ, ◌+◌, ◌≡◌, refl, sym, ap, ◌∙◌, Option, none, some, List, [], ◌∷◌, ◌++◌, append_assoc,
  append-nil,
}
use dmeng.Prelude.Poll.{Outcome, pending, ok, err, panic, spin, ◌>>>◌}
use dmeng.Error.{ProtError}
use dmeng.HttpHelper.{
  Middleware, HttpTrait, Messages, process_requests, process_errors, process_responses,
}

-- What a middleware or the handler is called for; a middleware is its place in the list.
pub data Call : Type 0 where
  asks : ℕ → Call
  handles : Call
  answers : ℕ → Call
  fails : ℕ → Call

module _ (m : Messages) where
  -- A middleware that notes its calls, and answers, fails or changes requests and responses as it likes.
  pub record Behaviour : Type 0 where
    pub answer : m.Req → Outcome ProtError (Option m.Res)
    pub change : m.Req → m.Req
    pub finish : m.Res → Outcome ProtError (Unit {0})
    pub amend : m.Res → m.Res

  abbrev pub recording : ℕ → Behaviour → Middleware m.Req m.Res (List Call)
  recording i b = record {
    process_request = λ r w. (b.answer r, b.change r, w ++ asks i ∷ []);
    process_response = λ res w. (b.finish res, b.amend res, w ++ answers i ∷ []);
    process_error = λ e w. w ++ fails i ∷ [];
  }

  abbrev pub numbered : ℕ → List Behaviour → List (Middleware m.Req m.Res (List Call))
  numbered i [] = []
  numbered i (b ∷ bs) = recording i b ∷ numbered (i + 1) bs

  -- A handler that may fail, and that changes the request and sets the middlewares first.
  abbrev pub handler :
      (m.Req → m.Req)
      → List Behaviour
      → (m.Req → Outcome ProtError m.Res)
      → HttpTrait m.Req m.Res (List Call)
  handler enter bs reply = record {
    operate = λ r w. (reply r, w ++ handles ∷ []);
    middle_operate = λ r ms w. (ok tt, enter r, numbered 0 bs, w);
  }

  -- The next middleware is asked where one neither answers nor fails.
  abbrev pub step {ℓ} : {A : Type ℓ} → Outcome ProtError (Option m.Res) → A → A → A
  step (ok none) next stop = next
  step (ok (some res)) next stop = stop
  step pending next stop = stop
  step (err e) next stop = stop
  step panic next stop = stop
  step spin next stop = stop

  -- What the way in ends with, the request as it is then, and the calls.
  abbrev pub answered : List Behaviour → m.Req → Outcome ProtError (Option m.Res)
  answered [] r = ok none
  answered (b ∷ bs) r = step (b.answer r) (answered bs (b.change r)) (b.answer r)

  abbrev pub changed : List Behaviour → m.Req → m.Req
  changed [] r = r
  changed (b ∷ bs) r = step (b.answer r) (changed bs (b.change r)) (b.change r)

  abbrev pub asked : ℕ → List Behaviour → m.Req → List Call
  asked i [] r = []
  asked i (b ∷ bs) r = asks i ∷ step (b.answer r) (asked (i + 1) bs (b.change r)) []

  -- The calls that tell every middleware of an error.
  abbrev pub told : ℕ → List Behaviour → List Call
  told i [] = []
  told i (b ∷ bs) = fails i ∷ told (i + 1) bs

  -- The way out and its calls: the last middleware first, up to the first that fails.
  abbrev pub way_out : ℕ → List Behaviour → m.Res → Outcome ProtError m.Res × List Call
  way_out i [] res = (ok res, [])
  way_out i (b ∷ bs) res = way_out (i + 1) bs res >>> λ res' l.
      ((b.finish res', l ++ answers i ∷ []) >>> λ u l'. (ok (b.amend res'), l'))

  reverse-cons {ℓ} :
      {A : Type ℓ} (x : A) (xs ys : List A) → reverse (x ∷ xs) ++ ys ≡ reverse xs ++ x ∷ ys
  reverse-cons x xs ys =
      ap (λ t. t ++ ys) (reverse-append (x ∷ []) xs) ∙ append_assoc (reverse xs) (x ∷ []) ys

  pub process_errors-numbered :
      (i : ℕ) (bs : List Behaviour) (e : ProtError) (w : List Call)
      → process_errors m (List Call) (numbered i bs) e w ≡ w ++ told i bs
  unfolding process_errors
  process_errors-numbered i [] e w = sym (append-nil w)
  process_errors-numbered i (b ∷ bs) e w =
      process_errors-numbered (i + 1) bs e (w ++ fails i ∷ [])
      ∙ append_assoc w (fails i ∷ []) (told (i + 1) bs)

  process_responses-reverse :
      (i : ℕ) (bs : List Behaviour) (ys : List (Middleware m.Req m.Res (List Call))) (res : m.Res)
      (w : List Call)
      → process_responses m (List Call) (reverse (numbered i bs) ++ ys) res w
        ≡ ((way_out i bs res).0, w ++ (way_out i bs res).1) >>> λ res' v.
            process_responses m (List Call) ys res' v
  unfolding process_responses
  process_responses-reverse i [] ys res w =
      ap (λ v. process_responses m (List Call) ys res v) (sym (append-nil w))
  process_responses-reverse i (b ∷ bs) ys res w =
      ap (λ l. process_responses m (List Call) l res w)
        (reverse-cons (recording i b) (numbered (i + 1) bs) ys)
      ∙ process_responses-reverse (i + 1) bs (recording i b ∷ ys) res w
      ∙ inner (way_out (i + 1) bs res)
    where
      rest : m.Res → List Call → Outcome ProtError m.Res × List Call
      rest res' v = process_responses m (List Call) ys res' v

      closing : m.Res → List Call → Outcome ProtError m.Res × List Call
      closing res' l = (b.finish res', l ++ answers i ∷ []) >>> λ u l'. (ok (b.amend res'), l')

      finishing :
          (res' : m.Res) (l : List Call) (o : Outcome ProtError (Unit {0}))
          → ((o, (w ++ l) ++ answers i ∷ []) >>> λ u v. rest (b.amend res') v) ≡ (
              let a = (o, l ++ answers i ∷ []) >>> λ u l'. (ok (b.amend res'), l') in
              (a.0, w ++ a.1) >>> rest)
      finishing res' l (ok u) = ap (λ v. rest (b.amend res') v) (append_assoc w l (answers i ∷ []))
      finishing res' l pending = ap (λ v. (pending, v)) (append_assoc w l (answers i ∷ []))
      finishing res' l (err e) = ap (λ v. (err e, v)) (append_assoc w l (answers i ∷ []))
      finishing res' l panic = ap (λ v. (panic, v)) (append_assoc w l (answers i ∷ []))
      finishing res' l spin = ap (λ v. (spin, v)) (append_assoc w l (answers i ∷ []))

      inner :
          (q : Outcome ProtError m.Res × List Call)
          → ((q.0, w ++ q.1) >>> λ res' v.
              ((b.finish res', v ++ answers i ∷ []) >>> λ u v'. rest (b.amend res') v'))
            ≡ (let a = q >>> closing in (a.0, w ++ a.1) >>> rest)
      inner (ok res', l) = finishing res' l (b.finish res')
      inner (pending, l) = refl
      inner (err e, l) = refl
      inner (panic, l) = refl
      inner (spin, l) = refl

  pub process_requests-numbered :
      (i : ℕ) (bs : List Behaviour) (r : m.Req) (w : List Call)
      → process_requests m (List Call) (numbered i bs) r w
        ≡ (answered bs r, changed bs r, w ++ asked i bs r)
  unfolding process_requests
  process_requests-numbered i [] r w = ap (λ v. (ok none, r, v)) (sym (append-nil w))
  process_requests-numbered i (b ∷ bs) r w =
      asking (process_requests-numbered (i + 1) bs (b.change r) (w ++ asks i ∷ [])) (b.answer r)
    where
      r' : m.Req
      r' = b.change r

      w' : List Call
      w' = w ++ asks i ∷ []

      asking :
          process_requests m (List Call) (numbered (i + 1) bs) r' w'
            ≡ (answered bs r', changed bs r', w' ++ asked (i + 1) bs r')
          → (o : Outcome ProtError (Option m.Res))
          → (elim o as (λ _. Outcome ProtError (Option m.Res) × m.Req × List Call) [
            | ok res ↦ elim res [
              | none ↦ process_requests m (List Call) (numbered (i + 1) bs) r' w'
              | some s ↦ (ok (some s), r', w')
            ]
            | pending ↦ (pending, r', w')
            | err e ↦ (err e, r', w')
            | panic ↦ (panic, r', w')
            | spin ↦ (spin, r', w')
          ])
            ≡ (
              step o (answered bs r') o,
              step o (changed bs r') r',
              w ++ asks i ∷ step o (asked (i + 1) bs r') [],
            )
      asking later (ok none) =
          later
          ∙ ap (λ v. (answered bs r', changed bs r', v))
              (append_assoc w (asks i ∷ []) (asked (i + 1) bs r'))
      asking later (ok (some s)) = refl
      asking later pending = refl
      asking later (err e) = refl
      asking later panic = refl
      asking later spin = refl

  pub process_responses-all :
      (bs : List Behaviour) (res : m.Res) (w : List Call)
      → process_responses m (List Call) (reverse (numbered 0 bs)) res w
        ≡ ((way_out 0 bs res).0, w ++ (way_out 0 bs res).1)
  unfolding process_responses
  process_responses-all bs res w =
      ap (λ l. process_responses m (List Call) l res w) (sym (append-nil (reverse (numbered 0 bs))))
      ∙ process_responses-reverse 0 bs [] res w
      ∙ ended (way_out 0 bs res)
    where
      ended :
          (q : Outcome ProtError m.Res × List Call)
          → ((q.0, w ++ q.1) >>> λ res' v. (ok res', v)) ≡ (q.0, w ++ q.1)
      ended (ok res', l) = refl
      ended (pending, l) = refl
      ended (err e, l) = refl
      ended (panic, l) = refl
      ended (spin, l) = refl
