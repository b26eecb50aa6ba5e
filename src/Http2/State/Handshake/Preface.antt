-- ===== src/Http2/State/Handshake/Preface.antt =====
-- The reading of the client's preface in src/http2/state/state_handshake.rs, over any split of the
-- incoming bytes.
use dmeng.Prelude.{
  ℕ, zero, suc, ◌+◌, ◌-◌, ◌≤◌, ◌≡◌, refl, sym, ap, ◌∙◌, ◌≢◌, true, ◌⊎◌, inl, inr, [], ◌∷◌, ◌++◌,
  append_assoc, length, take, drop, take-append-drop, arith, Bool-cases, min, ltb,
}
use dmeng.Prelude.Poll.{
  Outcome, pending, ok, err, panic, spin, split, is_pending, is_ok, is_err, is_panic, is_spin,
}
use dmeng.Error.{Bytes, ProtError}
use dmeng.Http2.Platform.{Platform, Lawful}
use dmeng.Http2.Codec.{Codec, is_empty, read}
use dmeng.Http2.Codec.Stream.{is_empty-nil, Polled-cases}
use dmeng.Http2.State.Handshake.{
  Handshaking, reading_preface, StateHandshake, matches, preface_loop, read_preface, handle_loop,
  poll_handle,
}

matches-eq : (xs ys : Bytes) → matches xs ys ≡ true → xs ≡ ys
matches-eq [] [] h = refl
matches-eq [] (y ∷ ys) h = cc
matches-eq (x ∷ xs) [] h = cc
matches-eq (x ∷ xs) (y ∷ ys) h = ground (arith, matches-eq xs ys)

suc-add : (m n : ℕ) → suc m + n ≡ suc (m + n)
suc-add m n = omega arith

take-nil : (m : ℕ) → take {A = ℕ} m [] ≡ []
take-nil zero = refl
take-nil (suc m) = refl

take-split : (m n : ℕ) (xs : Bytes) → take (m + n) xs ≡ take m xs ++ take n (drop m xs)
take-split zero n xs = ap (λ k. take k xs) (omega arith)
take-split (suc m) zero [] = take-nil (suc m + zero)
take-split (suc m) (suc n) [] = take-nil (suc m + suc n)
take-split (suc m) n (x ∷ xs) =
    ap (λ k. take k (x ∷ xs)) (suc-add m n) ∙ ap (λ r. x ∷ r) (take-split m n xs)

take-all : (n : ℕ) (xs : Bytes) → length xs ≤ n → take n xs ≡ xs
take-all zero [] h = refl
take-all zero (x ∷ xs) h = absurd (omega arith)
take-all (suc n) [] h = refl
take-all (suc n) (x ∷ xs) h = ap (λ r. x ∷ r) (take-all n xs (omega arith))

ok-injective : {a b : Bytes} → ◌≡◌ {A = Outcome ProtError Bytes} (ok a) (ok b) → a ≡ b
ok-injective h = cc

module _ (p : Platform) (l : Lawful p) where
  -- What is still to be read: the read buffer, then the transport.
  abbrev pub input : Codec p → Bytes
  input c = c.read_buf ++ l.incoming c.io

  abbrev Reads : Codec p → Outcome ProtError Bytes × Codec p → Type 0
  Reads c (ok b, c') = input c ≡ b ++ input c'
  Reads c (pending, c') = input c ≡ input c'
  Reads c (err e, c') = Unit
  Reads c (panic, c') = Unit
  Reads c (spin, c') = Unit

  read-Reads : (n : ℕ) (c : Codec p) → Reads c (read p n c)
  unfolding read
  read-Reads n c = elim (Bool-cases (is_empty c.read_buf)) [
    | inl none_left ↦ elim (Polled-cases (p.poll_read c.io n)) [
      | inl (t, e) ↦
          rw (none_left, read)
            (rw (e, read) (ap (λ s. c.read_buf ++ s) (sym (l.read_wait _ _ _ e).0)))
      | inr (inl (b, t, e)) ↦
          rw (none_left, read)
            (rw (e, read) (rw (is_empty-nil c.read_buf none_left) ((l.read_done _ _ _ _ e).0)))
      | inr (inr (m, t, e)) ↦ rw (none_left, read) (rw (e, read) tt)
    ]
    | inr some_left ↦
        rw (some_left, read)
          (let m = min n (length c.read_buf) in
            ap (λ s. s ++ l.incoming c.io) (sym (take-append-drop m c.read_buf))
            ∙ append_assoc (take m c.read_buf) (drop m c.read_buf) (l.incoming c.io))
  ]

  Reads-ok :
      (c : Codec p) (r : Outcome ProtError Bytes × Codec p) (b : Bytes)
      → Reads c r
      → r.0 ≡ ok b
      → input c ≡ b ++ input r.1
  Reads-ok c (ok b', c') b h e = rw (← ok-injective e) h
  Reads-ok c (pending, c') b h e = cc
  Reads-ok c (err x, c') b h e = cc
  Reads-ok c (panic, c') b h e = cc
  Reads-ok c (spin, c') b h e = cc

  Reads-pending :
      (c : Codec p) (r : Outcome ProtError Bytes × Codec p)
      → Reads c r
      → r.0 ≡ pending
      → input c ≡ input r.1
  Reads-pending c (ok b', c') h e = cc
  Reads-pending c (pending, c') h e = h
  Reads-pending c (err x, c') h e = cc
  Reads-pending c (panic, c') h e = cc
  Reads-pending c (spin, c') h e = cc

  -- From the position `pos` to `pos'`, where the reading is ok or waits: what was read is what the magic
  -- has between them, and ok says that it was read to the end.
  pub record Consumed (pos : ℕ) (c : Codec p) (out : Outcome ProtError (Unit {0})) (pos' : ℕ)
      (c' : Codec p) : Type 0 where
    pub consumed :
        (out ≡ ok tt) ⊎ (out ≡ pending)
        → take pos p.magic ++ input c ≡ take pos' p.magic ++ input c'
    pub complete : out ≡ ok tt → length p.magic ≤ pos'

  goes_on :
      (pos n : ℕ) (b : Bytes) (c c' : Codec p)
      → input c ≡ b ++ input c'
      → take n (drop pos p.magic) ≡ b
      → take pos p.magic ++ input c ≡ take (pos + n) p.magic ++ input c'
  goes_on pos n b c c' e m =
      ap (λ s. take pos p.magic ++ s) e
      ∙ ap (λ s. take pos p.magic ++ (s ++ input c')) (sym m)
      ∙ sym (append_assoc (take pos p.magic) (take n (drop pos p.magic)) (input c'))
      ∙ ap (λ s. s ++ input c') (sym (take-split pos n p.magic))

  stopped :
      {pos : ℕ} {c : Codec p} {out : Outcome ProtError (Unit {0})} {pos' : ℕ} {c' : Codec p}
      → out ≢ ok tt
      → out ≢ pending
      → Consumed pos c out pos' c'
  stopped fails blocks = record {
    consumed = λ h. elim h [ inl e ↦ absurd (fails e) | inr e ↦ absurd (blocks e) ];
    complete = λ e. absurd (fails e);
  }

  preface_loop-Consumed :
      (fuel pos : ℕ) (c : Codec p) → let r = preface_loop p fuel pos c in Consumed pos c r.0 r.1 r.2
  unfolding preface_loop
  preface_loop-Consumed zero pos c = record { consumed = λ h. refl; complete = λ h. ground arith }
  preface_loop-Consumed (suc fuel) pos c =
      let rem = length p.magic - pos in
      elim (Bool-cases (ltb 0 rem)) [
        | inr none_left ↦
            rw (none_left, preface_loop)
              (record { consumed = λ h. refl; complete = λ h. ground arith })
        | inl some_left ↦ elim (Bool-cases (ltb 24 rem)) [
          | inl long ↦
              rw (some_left, preface_loop) (rw (long, preface_loop) (stopped (λ h. cc) (λ h. cc)))
          | inr short ↦
              rw (some_left, preface_loop)
                (rw (short, preface_loop)
                  (elim (split (read p rem c).0) [
                    | is_pending e ↦
                        rw (e, preface_loop)
                          (record {
                            consumed = λ _.
                                ap (λ s. take pos p.magic ++ s)
                                  (Reads-pending c _ (read-Reads rem c) e);
                            complete = λ h. cc;
                          })
                    | is_err x e ↦ rw (e, preface_loop) (stopped (λ h. cc) (λ h. cc))
                    | is_panic e ↦ rw (e, preface_loop) (stopped (λ h. cc) (λ h. cc))
                    | is_spin e ↦ rw (e, preface_loop) (stopped (λ h. cc) (λ h. cc))
                    | is_ok [] e ↦ rw (e, preface_loop) (stopped (λ h. cc) (λ h. cc))
                    | is_ok (b ∷ bs) e ↦
                        elim (Bool-cases
                          (matches (take (length (b ∷ bs)) (drop pos p.magic)) (b ∷ bs))) [
                            | inl same ↦
                                let rest =
                                  preface_loop-Consumed fuel (pos + length (b ∷ bs))
                                    (read p rem c).1 in
                                rw (e, preface_loop)
                                  (rw (same, preface_loop)
                                    (record {
                                      consumed = λ h.
                                          goes_on pos (length (b ∷ bs)) (b ∷ bs) c (read p rem c).1
                                            (Reads-ok c _ (b ∷ bs) (read-Reads rem c) e)
                                            (matches-eq _ _ same)
                                          ∙ rest.consumed h;
                                      complete = rest.complete;
                                    }))
                            | inr other ↦
                                rw (e, preface_loop)
                                  (rw (other, preface_loop) (stopped (λ h. cc) (λ h. cc)))
                          ]
                  ]))
        ]
      ]

  read_preface-Consumed :
      (pos : ℕ) (c : Codec p) → let r = read_preface p pos c in Consumed pos c r.0 r.1 r.2
  unfolding read_preface
  read_preface-Consumed pos c = preface_loop-Consumed (length p.magic) pos c

  -- At the start the bytes `take pos magic` have been read. Where the poll is ok, the bytes read since
  -- complete exactly the magic and the handshake is done; where it waits, the handshake stands at a
  -- position up to which exactly the magic was read, so the next poll goes on from there.
  pub reading_preface-resumes :
      (h : StateHandshake) (pos : ℕ) (c : Codec p)
      → h.state ≡ reading_preface pos
      → let (out, h', c') = poll_handle p h c in
        (out ≡ ok tt
          → (h'.state ≡ Handshaking.done) × (take pos p.magic ++ input c ≡ p.magic ++ input c'))
        × (out ≡ pending
            → (pos' : ℕ) × (h'.state ≡ reading_preface pos')
              × (take pos p.magic ++ input c ≡ take pos' p.magic ++ input c'))
  unfolding poll_handle
  reading_preface-resumes h pos c at =
      let v = read_preface-Consumed pos c in
      let pos' = (read_preface p pos c).1 in
      rw (at, handle_loop)
        (elim (split (read_preface p pos c).0) [
          | is_ok u e ↦
              rw (e, handle_loop)
                (
                  (λ _. (
                    refl,
                    v.consumed (inl e)
                        ∙ ap (λ s. s ++ input (read_preface p pos c).2)
                            (take-all pos' p.magic (v.complete e)),
                  )),
                  λ h. cc,
                )
          | is_pending e ↦ rw (e, handle_loop) ((λ h. cc), λ _. (pos', refl, v.consumed (inr e)))
          | is_err x e ↦ rw (e, handle_loop) ((λ h. cc), λ h. cc)
          | is_panic e ↦ rw (e, handle_loop) ((λ h. cc), λ h. cc)
          | is_spin e ↦ rw (e, handle_loop) ((λ h. cc), λ h. cc)
        ])
