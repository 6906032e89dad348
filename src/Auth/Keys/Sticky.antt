-- ===== src/Auth/Keys/Sticky.antt =====
-- The key caches of session-token-issuer.service.ts and session-verification-key.service.ts.
use oc.Base.{some, none, ◌≡◌, refl}
use oc.Base.Exec.{Result}
use oc.Auth.Keys.{KeyCache, get_key}

-- After one call every later call gives the same answer and leaves the cache alone, whatever a load
-- would give by then: a key that was loaded, but a failure to load it as well.
pub get_key_sticky :
    {Key : Type 0} (load later : Result Key) (cache : KeyCache Key)
    → get_key later (get_key load cache).1 ≡ get_key load cache
unfolding get_key
get_key_sticky load later none = refl
get_key_sticky load later (some r) = refl
