-- ===== src/Plugins/Copy/Runs.antt =====
-- What the copying loop of a WebSocket plugin has passed on and what it still holds, whatever branches run.
use dmeng.Prelude.{
  Bool, true, false, ◌≡◌, refl, sym, ap, ◌∙◌, List, [], ◌∷◌, ◌++◌, append_assoc, append-nil,
  take-append-drop, take, drop, none, some,
}
use dmeng.Prelude.{Bool-cases, inl, inr}
use dmeng.Prelude.Poll.{Outcome, ok, pending, err, panic, spin}
use dmeng.Error.{Bytes, ProtError}
use dmeng.SendStream.Fixed.{concat, concat-append}
use dmeng.Plugins.Copy.{
  Event, read_some, read_fails, write_some, write_fails, receives, reserves, Copy, new, is_enabled,
  bind, go_on, select,
}

-- The runs of the loop, with the events that have run, the last one first.
pub data Runs : List Event → Outcome ProtError Bool → Copy → Type 0 where
  start : Runs [] (ok true) new
  later :
      {h : List Event} {s : Copy} (e : Event)
      → Runs h (ok true) s
      → is_enabled e s ≡ true
      → Runs (e ∷ h) (select e s).0 (select e s).1

-- What the stream gave, and what the WebSocket gave, in order.
abbrev pub gave : List Event → Bytes
gave [] = []
gave (read_some b ∷ h) = gave h ++ b
gave (read_fails e ∷ h) = gave h
gave (write_some n ∷ h) = gave h
gave (write_fails e ∷ h) = gave h
gave (receives m ∷ h) = gave h
gave (reserves c ∷ h) = gave h

abbrev pub arrived : List Event → List Bytes
arrived [] = []
arrived (read_some b ∷ h) = arrived h
arrived (read_fails e ∷ h) = arrived h
arrived (write_some n ∷ h) = arrived h
arrived (write_fails e ∷ h) = arrived h
arrived (receives none ∷ h) = arrived h
arrived (receives (some v) ∷ h) = arrived h ++ v ∷ []
arrived (reserves c ∷ h) = arrived h

concat-snoc : (xs : List Bytes) (b : Bytes) → concat (xs ++ b ∷ []) ≡ concat xs ++ b
concat-snoc xs b = concat-append xs (b ∷ []) ∙ ap (λ t. concat xs ++ t) (append-nil b)

-- Both directions: what came in is what went out, and then what is buffered.
abbrev pub IsKept : List Event → Copy → Type 0
IsKept h s = (concat s.sent ++ s.read ≡ gave h) × (s.written ++ s.write ≡ concat (arrived h))

-- A read puts its bytes behind what is buffered; an empty one ends the loop and puts nothing.
read_some-IsKept :
    (b : Bytes) (h : List Event) (s : Copy)
    → IsKept h s
    → IsKept (read_some b ∷ h) (select (read_some b) s).1
unfolding select
read_some-IsKept [] h s k = (k.0 ∙ sym (append-nil (gave h)), k.1)
read_some-IsKept (x ∷ b) h s k =
    (sym (append_assoc (concat s.sent) s.read (x ∷ b)) ∙ ap (λ t. t ++ x ∷ b) k.0, k.1)

select-IsKept : (e : Event) (h : List Event) (s : Copy) → IsKept h s → IsKept (e ∷ h) (select e s).1
unfolding select
select-IsKept (read_some b) h s k = read_some-IsKept b h s k
select-IsKept (read_fails e) h s k = k
select-IsKept (write_some n) h s k = (
  k.0,
  append_assoc s.written (take n s.write) (drop n s.write)
      ∙ ap (λ t. s.written ++ t) (take-append-drop n s.write)
      ∙ k.1,
)
select-IsKept (write_fails e) h s k = k
select-IsKept (receives none) h s k = k
select-IsKept (receives (some v)) h s k = (
  k.0,
  sym (append_assoc s.written s.write v) ∙ ap (λ t. t ++ v) k.1 ∙ sym (concat-snoc (arrived h) v),
)
select-IsKept (reserves false) h s k = k
select-IsKept (reserves true) h s k =
    (append-nil (concat (s.sent ++ s.read ∷ [])) ∙ concat-snoc s.sent s.read ∙ k.0, k.1)

-- After any run of the loop, ended or not: the messages sent and then the read buffer are the bytes that
-- the stream gave, and what the stream took and then the write buffer are the messages that arrived. What
-- the buffers hold when the loop ends is not sent.
pub Runs-IsKept : {h : List Event} {o : Outcome ProtError Bool} {s : Copy} → Runs h o s → IsKept h s
unfolding new
Runs-IsKept start = (refl, refl)
Runs-IsKept (later {h} {s} e r g) = select-IsKept e h s (Runs-IsKept r)

-- A round of the loop, and what the rounds after it make of its run.
go_on-Runs :
    (r : Outcome ProtError Bool × Copy) (again : Copy → Outcome ProtError Bool × Copy)
    (h : List Event)
    → Runs h r.0 r.1
    → ((t : Copy) → Runs h (ok true) t → (g : List Event) × Runs g (again t).0 (again t).1)
    → (g : List Event) × Runs g (go_on r again).0 (go_on r again).1
go_on-Runs (ok true, t) again h x k = k t x
go_on-Runs (ok false, t) again h x k = (h, x)
go_on-Runs (pending, t) again h x k = (h, x)
go_on-Runs (err e, t) again h x k = (h, x)
go_on-Runs (panic, t) again h x k = (h, x)
go_on-Runs (spin, t) again h x k = (h, x)

-- The loop over any events makes such a run.
pub bind-Runs :
    (es h : List Event) (s : Copy)
    → Runs h (ok true) s
    → (g : List Event) × Runs g (bind es s).0 (bind es s).1
unfolding bind
bind-Runs [] h s r = (h, r)
bind-Runs (e ∷ es) h s r = elim (Bool-cases (is_enabled e s)) [
  | inl on ↦ rw on (
      go_on-Runs (select e s) (λ t. bind es t) (e ∷ h) (Runs.later e r on)
        (λ t. bind-Runs es (e ∷ h) t))
  | inr off ↦ rw off (bind-Runs es h s r)
]
