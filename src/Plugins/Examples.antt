-- ===== src/Plugins/Examples.antt =====
-- Runs of the copying loop: at one end a stream gives bytes, at the other a stream takes them.
use dmeng.Prelude.{refl, true, [], ◌∷◌}
use dmeng.Prelude.Poll.{ok}
use dmeng.Plugins.Copy.{read_some, write_some, receives, reserves, new, bind, select, is_enabled}
use dmeng.Plugins.Copy.Runs.{Runs, start, later, IsKept, Runs-IsKept}
use dmeng.Prelude.{◌≡◌, some}

-- The read buffer goes out as one message, and what is read after that waits.
giving :
    Runs
      (read_some (9 ∷ []) ∷ reserves true ∷ read_some (7 ∷ 8 ∷ []) ∷ [])
      (ok true)
      (record { read = 9 ∷ []; write = []; written = []; sent = (7 ∷ 8 ∷ []) ∷ [] })
unfolding new select is_enabled
giving =
    later (read_some (9 ∷ []))
      (later (reserves true) (later (read_some (7 ∷ 8 ∷ [])) start refl) refl) refl

-- The other end has written one byte of the message.
taking :
    Runs
      (write_some 1 ∷ receives (some (7 ∷ 8 ∷ [])) ∷ [])
      (ok true)
      (record { read = []; write = 8 ∷ []; written = 7 ∷ []; sent = [] })
unfolding new select is_enabled
taking = later (write_some 1) (later (receives (some (7 ∷ 8 ∷ []))) start refl) refl

Runs-IsKept_example :
    IsKept
      (read_some (9 ∷ []) ∷ reserves true ∷ read_some (7 ∷ 8 ∷ []) ∷ [])
      (record { read = 9 ∷ []; write = []; written = []; sent = (7 ∷ 8 ∷ []) ∷ [] })
Runs-IsKept_example = Runs-IsKept giving

-- The end of the stream ends the loop, and the byte that was read is not sent.
ended : (bind (read_some (9 ∷ []) ∷ read_some [] ∷ reserves true ∷ []) new).1.sent ≡ []
unfolding bind new select is_enabled
ended = refl
