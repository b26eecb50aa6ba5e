-- ===== src/Ws/Accept.antt =====
-- src/ws/handshake.rs: the answer to an upgrade request. base64, SHA-1 and the headers' values, which are
-- texts, are arguments.
use dmeng.Prelude.{ℕ, Bool, false, Option, none, some, List, [], ◌∷◌, length, ◌==◌, if◌then◌else◌}
use dmeng.Prelude.Poll.{Outcome, pending, ok, err, panic, spin}
use dmeng.Error.{Bytes, ProtError, web_error}

abbrev pub bad_key : ℕ
bad_key = 1

abbrev pub invalid_accept : ℕ
invalid_accept = 2

-- Texts and hashes of the libraries: `split` cuts at commas and spaces and drops what is empty.
pub record Texts : Type 1 where
  pub Text : Type 0
  pub base64_decode : Text → Option Bytes
  pub base64_encode : Bytes → Text
  pub sha1 : Text → Bytes
  pub with_magic_guid : Text → Text
  pub is_13 : Text → Bool
  pub chat : Text
  pub split : Text → List Text

-- The answer: 400, or 101 with the two values of its headers.
pub data Answer (t : Texts) : Type 0 where
  bad_version : Answer t
  switching : t.Text → t.Text → Answer t

module _ (t : Texts) where
  unfoldable pub build_accept : t.Text → Outcome ProtError t.Text
  build_accept key = elim (t.base64_decode key) [
    | none ↦ err (web_error invalid_accept)
    | some vec ↦
        if length vec == 16
        then ok (t.base64_encode (t.sha1 (t.with_magic_guid key)))
        else err (web_error bad_key)
  ]

  -- `protocols[0]` panics where no protocol is named.
  first_protocol : t.Text → List t.Text → Outcome ProtError (Answer t)
  first_protocol accept [] = panic
  first_protocol accept (x ∷ xs) = ok (switching accept x)

  accept_with : t.Text → Option t.Text → Outcome ProtError (Answer t)
  unfolding build_accept first_protocol
  accept_with key protocol =
      let names : List t.Text = elim protocol [ some x ↦ t.split x | none ↦ t.split t.chat ] in
      elim (build_accept key) [
        | ok accept ↦ first_protocol accept names
        | pending ↦ pending
        | err e ↦ err e
        | panic ↦ panic
        | spin ↦ spin
      ]

  is_version_13 : Option t.Text → Bool
  is_version_13 none = false
  is_version_13 (some v) = t.is_13 v

  unfoldable pub build_request :
      Option t.Text → Option t.Text → Option t.Text → Outcome ProtError (Answer t)
  unfolding accept_with is_version_13
  build_request none protocol version = ok bad_version
  build_request (some key) protocol version =
      if is_version_13 version then accept_with key protocol else ok bad_version
