-- ===== src/Http2/State/Settings/Rounds.antt =====
-- The exchange of SETTINGS in src/http2/state/state_settings.rs.
use mathlib.Core.Path.{subst}
use dmeng.Prelude.{ℕ, ◌≡◌, ◌⊎◌, ◌↔◌, ◌≢◌, refl, ap, Bool, true, false, Option, none, some, arith}
use dmeng.Prelude.Poll.{
  Outcome, ok, err, panic, is_value, split, is_pending, is_ok, is_err, is_panic, is_spin,
}
use dmeng.Error.{ProtError, library_go_away}
use dmeng.Http2.Frame.{Settings, settings, control_frame}
use dmeng.Http2.Platform.{Platform}
use dmeng.Http2.Codec.{Codec, poll_ready, send_frame}
use dmeng.Http2.State.Settings.{
  ControlConfig, LocalState, send, wait_ack, StateSettings, protocol_error, poll_handle,
  recv_setting, apply_to_codec, send_settings, send_local, acknowledge,
}

-- The state after our settings are sent, and the settings whose acknowledgement is awaited.
abbrev pub after_send : LocalState → LocalState
after_send (send mine) = wait_ack mine
after_send (wait_ack mine) = wait_ack mine
after_send LocalState.done = LocalState.done

abbrev pub awaited : LocalState → Option Settings
awaited (wait_ack mine) = some mine
awaited (send mine) = none
awaited LocalState.done = none

abbrev pub or_else : Option Settings → Settings → Settings
or_else none s = s
or_else (some t) s = t

-- What a codec has taken: a frame, the settings that are to be sent, and the acknowledgement of the peer's
-- settings, after which those limit the codec.
module _ (p : Platform) where
  abbrev pub Takes : Settings → Codec p → Codec p → Type 0
  Takes frame c c' = (n : ℕ) × (send_frame p (control_frame (settings frame)) c ≡ (ok n, c'))

  abbrev pub Sends : LocalState → Codec p → Codec p → Type 0
  Sends (send mine) c c' = Takes mine c c'
  Sends (wait_ack mine) c c' = c' ≡ c
  Sends LocalState.done c c' = c' ≡ c

  abbrev pub Acknowledges : Option Settings → Codec p → Codec p → Type 0
  Acknowledges none c c' = c' ≡ c
  Acknowledges (some theirs) c c' =
      (d : Codec p) × (e : Codec p) × (poll_ready p c ≡ (ok tt, d))
      × Takes p.settings_ack d e
      × (c' ≡ apply_to_codec p theirs e)
      × ((size : ℕ) → theirs.max_frame_size ≡ some size → c'.max_send_frame_size ≡ size)

  limits :
      (theirs : Settings) (size : ℕ) (c : Codec p)
      → theirs.max_frame_size ≡ some size
      → (apply_to_codec p theirs c).max_send_frame_size ≡ size
  unfolding apply_to_codec
  limits theirs size c e = rw e refl

  Local : StateSettings → Codec p → Outcome ProtError Bool × StateSettings × Codec p → Type 0
  Local s c (out, s', c') = (is_value out ≡ true → Sends s.state c c') × (s'.remote ≡ s.remote)

  send_local-Local : (s : StateSettings) (c : Codec p) → Local s c (send_local p s c)
  unfolding send_local Local
  send_local-Local s c = local s.state refl
    where
      local : (o : LocalState) → s.state ≡ o → Local s c (send_local p s c)
      local (send mine) e =
          let sent = send_frame p (control_frame (settings mine)) c in
          rw (e, send_local)
            (elim (split sent.0) [
              | is_pending f ↦ rw (f, send_local) (λ h. absurd (cc), refl)
              | is_err x f ↦ rw (f, send_local) (λ h. absurd (cc), refl)
              | is_panic f ↦ rw (f, send_local) (λ h. absurd (cc), refl)
              | is_spin f ↦ rw (f, send_local) (λ h. absurd (cc), refl)
              | is_ok n f ↦ rw (f, send_local) (λ h. (n, refl), refl)
            ])
      local (wait_ack mine) e = rw (e, send_local) (λ h. refl, refl)
      local LocalState.done e = rw (e, send_local) (λ h. refl, refl)

  acknowledge-Acknowledges :
      (remote : Option Settings) (is_wait : Bool) (s : StateSettings) (c : Codec p)
      (config : ControlConfig)
      → let (out, s', c', config') = acknowledge p remote is_wait s c config in
        is_value out ≡ true → Acknowledges remote c c'
  unfolding acknowledge
  acknowledge-Acknowledges none is_wait s c config = λ h. refl
  acknowledge-Acknowledges (some theirs) is_wait s c config =
      let room = poll_ready p c in
      let sent = send_frame p (control_frame (settings p.settings_ack)) room.1 in
      elim (split room.0) [
        | is_pending e ↦ rw (e, acknowledge) λ h. absurd (cc)
        | is_err x e ↦ rw (e, acknowledge) λ h. absurd (cc)
        | is_panic e ↦ rw (e, acknowledge) λ h. absurd (cc)
        | is_spin e ↦ rw (e, acknowledge) λ h. absurd (cc)
        | is_ok u e ↦
            rw (e, acknowledge)
              (elim (split sent.0) [
                | is_pending f ↦ rw (f, acknowledge) λ h. absurd (cc)
                | is_err x f ↦ rw (f, acknowledge) λ h. absurd (cc)
                | is_panic f ↦ rw (f, acknowledge) λ h. absurd (cc)
                | is_spin f ↦ rw (f, acknowledge) λ h. absurd (cc)
                | is_ok n f ↦
                    rw (f, acknowledge)
                      λ h. (
                        room.1,
                        sent.1,
                        refl,
                        (n, ap (λ o. (o, sent.1)) f),
                        refl,
                        λ size sized. limits theirs size sent.1 sized,
                      )
              ])
      ]

module _ (p : Platform) (s : StateSettings) (c : Codec p) (config : ControlConfig) where
  poll_handle-states :
      let (out, s', c', config') = poll_handle p s c config in
      ((s'.state ≡ s.state) ⊎ (s'.state ≡ after_send s.state))
      × (is_value out ≡ true
          → (s'.state ≡ after_send s.state)
            × (s'.remote ≡ none)
            × (config'.settings ≡ or_else s.remote config.settings)
            × ((out ≡ ok false) ↔ (s.state ≡ LocalState.done)))
      × (is_value out ≡ false → (s'.remote ≡ s.remote) × (config' ≡ config))
  unfolding poll_handle
  poll_handle-states = ground arith

  poll_handle-frames :
      let (out, s', c', config') = poll_handle p s c config in
      is_value out ≡ true → (d : Codec p) × Sends p s.state c d × Acknowledges p s.remote d c'
  unfolding poll_handle Local
  poll_handle-frames =
      let sent = send_local p s c in
      let (sends, kept) = send_local-Local p s c in
      elim (split sent.0) [
        | is_pending e ↦ rw (e, poll_handle) λ h. absurd (cc)
        | is_err x e ↦ rw (e, poll_handle) λ h. absurd (cc)
        | is_panic e ↦ rw (e, poll_handle) λ h. absurd (cc)
        | is_spin e ↦ rw (e, poll_handle) λ h. absurd (cc)
        | is_ok w e ↦
            rw (e, poll_handle)
              λ h. (
                sent.2,
                sends (ap is_value e),
                subst
                    (λ r.
                      Acknowledges p r sent.2
                        (acknowledge p sent.1.remote w sent.1 sent.2 config).2)
                    kept (acknowledge-Acknowledges p sent.1.remote w sent.1 sent.2 config h),
              )
      ]

  -- A poll leaves the state as it was or moves it on from sending to waiting for the acknowledgement of
  -- the same settings, and does the latter where it is ok. Where it is not ok the configuration and the
  -- peer's settings waiting to be acknowledged stay. Where it is ok the codec has taken this side's settings, if they were to
  -- be sent, and then, if settings of the peer waited, their acknowledgement, and is limited by them; these
  -- are the configuration, none wait, and the answer is false exactly where this side's exchange is done.
  pub poll_handle-round :
      let (out, s', c', config') = poll_handle p s c config in
      ((s'.state ≡ s.state) ⊎ (s'.state ≡ after_send s.state))
      × (is_value out ≡ true
          → (s'.state ≡ after_send s.state)
            × (s'.remote ≡ none)
            × (config'.settings ≡ or_else s.remote config.settings)
            × ((out ≡ ok false) ↔ (s.state ≡ LocalState.done)))
      × (is_value out ≡ true → (d : Codec p) × Sends p s.state c d × Acknowledges p s.remote d c')
      × (is_value out ≡ false → (s'.remote ≡ s.remote) × (config' ≡ config))
  poll_handle-round =
      let (moved, done_, kept) = poll_handle-states in (moved, done_, poll_handle-frames, kept)

  -- An acknowledgement that is awaited ends the exchange: the settings that this side sent become the
  -- configuration and limit the codec. One that is not awaited is a PROTOCOL_ERROR that changes nothing.
  -- Other settings wait to be acknowledged, in place of any that waited before, and the answer says
  -- whether this side's exchange is done.
  recv_setting-branches :
      (setting : Settings)
      → let (out, s', c', config') = recv_setting p s c setting config in
        ((mine : Settings)
          → setting.is_ack ≡ true
          → awaited s.state ≡ some mine
          → (out ≡ ok true)
            × (s'.state ≡ LocalState.done)
            × (s'.remote ≡ s.remote)
            × (config'.settings ≡ mine)
            × (c' ≡ apply_to_codec p mine c))
        × (setting.is_ack ≡ true
            → awaited s.state ≡ none
            → (out ≡ err (library_go_away protocol_error))
              × (s' ≡ s)
              × (c' ≡ c)
              × (config' ≡ config))
        × (setting.is_ack ≡ false
            → (s'.state ≡ s.state)
              × (s'.remote ≡ some setting)
              × (c' ≡ c)
              × (config' ≡ config)
              × ((out ≡ ok true) ↔ (s.state ≡ LocalState.done)))
  unfolding recv_setting
  recv_setting-branches setting = ground arith

  -- Where the acknowledgement of settings with a frame size is received, that size limits the frames that
  -- this side sends, and its own settings are the configuration, whatever the peer's settings had set.
  recv_setting-overwrites_peer :
      (mine setting : Settings) (size : ℕ)
      → s.state ≡ wait_ack mine
      → setting.is_ack ≡ true
      → mine.max_frame_size ≡ some size
      → let (out, s', c', config') = recv_setting p s c setting config in
        (c'.max_send_frame_size ≡ size) × (config'.settings ≡ mine)
  unfolding recv_setting
  recv_setting-overwrites_peer mine setting size waits ack sized = ground arith

-- New settings of this side are refused, and change nothing, until the last exchange is done; then they
-- are to be sent next. An acknowledgement offered as settings panics.
send_settings-branches :
    (setting : Settings) (s : StateSettings)
    → let (out, s') = send_settings setting s in
      (setting.is_ack ≡ true → out ≡ panic)
      × (setting.is_ack ≡ false
          → s.state ≡ LocalState.done
          → (out ≡ ok tt) × (s'.state ≡ send setting) × (s'.remote ≡ s.remote))
      × (s.state ≢ LocalState.done → (out ≢ ok tt) × (s' ≡ s))
unfolding send_settings
send_settings-branches setting s = ground arith
