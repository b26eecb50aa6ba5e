-- ===== src/Error/Classify.antt =====
-- What the classifiers of src/error.rs answer of the errors that the constructors build.
use text.Mathlib.Text.{◌==◌ as str_eq}
use Prim.Native.String.{String}
use dmeng.Prelude.{◌≡◌, refl, true, false, arith}
use dmeng.Error.{
  ProtError, is_timeout, is_io, is_read_timeout, is_write_timeout, is_server_upgrade_http2,
  is_server_upgrade_ws, read_timeout, write_timeout, connect_timeout, time_timeout, ka_timeout,
}

-- For every message: each of the five timeout constructors is classified as a timeout, with the
-- second answer true exactly when the message is "client", and only `read_timeout` as a read timeout.
pub timeouts_classified :
    (val : String)
    → let client = str_eq val "client" in
      (is_timeout (connect_timeout val) ≡ (true, client))
      × (is_timeout (read_timeout val) ≡ (true, client))
      × (is_timeout (write_timeout val) ≡ (true, client))
      × (is_timeout (time_timeout val) ≡ (true, client))
      × (is_timeout (ka_timeout val) ≡ (true, client))
      × (is_read_timeout (read_timeout val) ≡ (true, client))
      × (is_read_timeout (connect_timeout val) ≡ (false, false))
      × (is_read_timeout (write_timeout val) ≡ (false, false))
      × (is_read_timeout (time_timeout val) ≡ (false, false))
      × (is_read_timeout (ka_timeout val) ≡ (false, false))
unfolding is_timeout is_read_timeout connect_timeout read_timeout write_timeout time_timeout
    ka_timeout
timeouts_classified val = (refl, refl, refl, refl, refl, refl, refl, refl, refl, refl)

-- For every message: `is_write_timeout` does not recognise the error that `write_timeout` builds, and
-- takes the one that `read_timeout` builds for a write timeout.
is_write_timeout-confuses :
    (val : String)
    → (is_write_timeout (write_timeout val) ≡ (false, false))
      × (is_write_timeout (read_timeout val) ≡ (true, str_eq val "client"))
unfolding is_write_timeout read_timeout write_timeout
is_write_timeout-confuses val = (refl, refl)

-- No error is recognised by two of the classifiers for timeouts, I/O errors and the two upgrades.
pub classifiers_exclusive :
    (e : ProtError)
    → (is_io e ≡ true
        → ((is_timeout e).0 ≡ false)
          × (is_server_upgrade_http2 e ≡ false)
          × (is_server_upgrade_ws e ≡ false))
      × ((is_timeout e).0 ≡ true
          → (is_server_upgrade_http2 e ≡ false) × (is_server_upgrade_ws e ≡ false))
      × (is_server_upgrade_http2 e ≡ true → is_server_upgrade_ws e ≡ false)
unfolding is_io is_timeout is_server_upgrade_http2 is_server_upgrade_ws
classifiers_exclusive e = ground arith
