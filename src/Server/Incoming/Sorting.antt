-- ===== src/Server/Incoming/Sorting.antt =====
-- The requests that `incoming` of src/server.rs receives: which are counted and which are passed on as errors.
use Prim.Native.String.{String}
use text.Mathlib.Text.{◌==◌ as str_eq}
use dmeng.Prelude.{ℕ, ◌+◌, ◌^◌, ◌<◌, Bool, true, false, Option, none, some, if◌then◌else◌, arith}
use dmeng.Prelude.Poll.{Outcome, pending, ok, err, panic, spin, ◌>>>◌}
use dmeng.Error.{ProtError, RequestRef}
use dmeng.Server.Parts.{Parts}
use dmeng.Server.Setup.{Server, flush}
use dmeng.Server.Incoming.{next_request, sort_request, counted, inner_incoming}
use dmeng.Server.Incoming.Served.{Ledger, Held, next_request-Held, flush-Held}

pub if-keeps {ℓ} :
    {C : Type 0} (P : C → Type ℓ) (b : Bool) (c d : C) → P c → P d → P (if b then c else d)
if-keeps P true c d i j = i
if-keeps P false c d i j = j

module _ (x : Parts) (l : Ledger x) where
  -- A request that is handed on has been counted.
  abbrev pub Got : ℕ → ℕ → ℕ → Outcome ProtError (Option RequestRef) × Server x → Type 0
  Got q m c (ok (some r), t) = Held x l q (q + 1) m c t
  Got q m c (ok none, t) = Held x l q q m c t
  Got q m c (pending, t) = Held x l q q m c t
  Got q m c (err e, t) = Held x l q q m c t
  Got q m c (panic, t) = Held x l q q m c t
  Got q m c (spin, t) = Held x l q q m c t

  counted-Got :
      (q m c : ℕ) (r : RequestRef) (s : Server x)
      → Held x l q q m c s
      → q < m
      → m < 2 ^ 64
      → Got q m c (counted x r s)
  unfolding counted
  counted-Got q m c r s (f, i, j, k, a, b) less small =
      (f, i, omega (arith, j, less, small), k, a, b)

  sort_request-Got :
      (q m c : ℕ) (o : Option String) (r : RequestRef) (s : Server x)
      → Held x l q q m c s
      → q < m
      → m < 2 ^ 64
      → Got q m c (sort_request x o r s)
  unfolding sort_request
  sort_request-Got q m c none r s k less small = counted-Got q m c r s k less small
  sort_request-Got q m c (some protocol) r s k less small =
      if-keeps (Got q m c) (str_eq protocol "h2c") _ _ k (
        if-keeps (Got q m c) (str_eq protocol "websocket") _ _ k
          (counted-Got q m c r s k less small))

  sorted-Got :
      (q m c : ℕ) (a : Outcome ProtError (Option RequestRef) × Server x)
      → Held x l q q m c a.1
      → q < m
      → m < 2 ^ 64
      → Got q m c (
          a >>> λ o t. (elim o [
            | none ↦ (ok none, flush x t)
            | some r ↦ sort_request x (x.upgrade_protocol r) r t
          ]))
  sorted-Got q m c (ok none, t) k less small = flush-Held x l q q m c t k
  sorted-Got q m c (ok (some r), t) k less small =
      sort_request-Got q m c (x.upgrade_protocol r) r t k less small
  sorted-Got q m c (pending, t) k less small = k
  sorted-Got q m c (err e, t) k less small = k
  sorted-Got q m c (panic, t) k less small = k
  sorted-Got q m c (spin, t) k less small = k

  pub inner_incoming-Got :
      (q m c : ℕ) (s : Server x)
      → Held x l q q m c s
      → q < m
      → m < 2 ^ 64
      → Got q m c (inner_incoming x s)
  unfolding inner_incoming
  inner_incoming-Got q m c s k less small =
      sorted-Got q m c (next_request x s) (next_request-Held x l q q m c s k) less small
