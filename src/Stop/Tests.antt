-- ===== src/Stop/Tests.antt =====
-- A word with both kinds of references.
use macoro.Common.{◌≡◌, true, false, refl, arith}
use macoro.Stop.State.{set_complete}
use macoro.Stop.Refs.{
  Refs, Fits, encode, RefOp, exec, counted, last_gone, exec-encode, set_complete-encode,
}

-- A stop was requested, no source and one token are left.
abbrev last_token : Refs
last_token = record { requested = true; complete = false; sources = 0; tokens = 1 }

last_token-Fits : Fits last_token
last_token-Fits = record { sources_fit = omega arith; tokens_fit = omega arith }

exec-encode_example :
    ((exec RefOp.release_token (encode last_token)).0
      ≡ encode (counted RefOp.release_token last_token))
    × ((exec RefOp.release_token (encode last_token)).1 ≡ last_gone RefOp.release_token last_token)
exec-encode_example = exec-encode RefOp.release_token last_token last_token-Fits (omega arith)

set_complete-encode_example :
    set_complete (encode last_token) ≡ encode (record last_token { complete = true })
set_complete-encode_example = set_complete-encode last_token last_token-Fits refl
