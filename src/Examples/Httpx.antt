-- ===== src/Examples/Httpx.antt =====
-- internal/httpx at concrete inputs: a key that has used its limit, beside another key.
use mini_enclava_go.Common.{◌≡◌, refl, [], ◌∷◌, arith}
use mini_enclava_go.Httpx.RateLimiter.{Windows, lookup, allow, count_call}
use mini_enclava_go.Httpx.RateLimiter.Window.{allow-only, only}

abbrev windows : Windows
windows =
    ("k1", record { start = 5; count = 2; ttl = 100 })
    ∷ ("k2", record { start = 7; count = 2; ttl = 100 })
    ∷ []

allow-only_example :
    ((allow "k2" 2 100 50 windows).0 ≡ (count_call "k2" 2 100 50 (only "k2" windows)).0)
    × (lookup "k2" (allow "k2" 2 100 50 windows).1
        ≡ lookup "k2" (count_call "k2" 2 100 50 (only "k2" windows)).1)
unfolding lookup
allow-only_example =
    allow-only "k2" 2 100 50 windows (omega arith) (omega arith) (refl, (refl, tt)) refl
