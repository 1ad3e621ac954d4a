-- ===== src/Httpx/RateLimiter.antt =====
-- internal/httpx/ratelimit.go: fixed windows per key. An instant and a duration are nanoseconds, and a
-- limit or a window of zero stands for every value that is not positive. The map of windows is an
-- association list.
pub mod Window
use mini_enclava_go.Common.{
  ℕ, ◌+◌, ◌-◌, ◌/◌, Bool, true, false, not, ◌&&◌, String, str_eq, List, [], ◌∷◌, Option, none, some,
  ltb, leb, ◌==◌, length, if◌then◌else◌,
}

pub record RateWindow : Type 0 where
  pub start : ℕ
  pub count : ℕ
  pub ttl : ℕ

pub record RateLimitDecision : Type 0 where
  pub allowed : Bool
  pub limit : ℕ
  pub remaining : ℕ
  pub reset_epoch : ℕ
  pub retry_after : ℕ

abbrev pub Windows : Type 0
Windows = List (String × RateWindow)

-- `rl.windows[key]`, `rl.windows[key] = w`.
unfoldable pub lookup : String → Windows → Option RateWindow
lookup k [] = none
lookup k ((key, w) ∷ rest) = if str_eq key k then some w else lookup k rest

unfoldable pub put : String → RateWindow → Windows → Windows
put k w [] = (k, w) ∷ []
put k w ((key, v) ∷ rest) = if str_eq key k then (k, w) ∷ rest else (key, v) ∷ put k w rest

abbrev pub is_over : ℕ → RateWindow → Bool
is_over now w = ltb 0 w.ttl && leb w.ttl (now - w.start)

unfoldable pub cleanup : ℕ → Windows → Windows
cleanup now [] = []
cleanup now ((key, w) ∷ rest) =
    if is_over now w then cleanup now rest else (key, w) ∷ cleanup now rest

-- The window that a call counts in.
unfoldable pub current : ℕ → ℕ → Option RateWindow → RateWindow
current window now none = record { start = now; count = 0; ttl = window }
current window now (some w) =
    if leb window (now - w.start) then record { start = now; count = 0; ttl = window } else w

abbrev pub second : ℕ
second = 1000000000

abbrev pub refusal : ℕ → ℕ → ℕ → RateWindow → RateLimitDecision
refusal limit window now w = record {
  allowed = false;
  limit = limit;
  remaining = 0;
  reset_epoch = (w.start + window) / second;
  retry_after = (w.start + window - now) / second;
}

abbrev pub admission : ℕ → ℕ → RateWindow → RateLimitDecision
admission limit window w = record {
  allowed = true;
  limit = limit;
  remaining = limit - w.count;
  reset_epoch = (w.start + window) / second;
  retry_after = 0;
}

-- The part of `allow` on the key, after the clean-up.
unfoldable pub count_call : String → ℕ → ℕ → ℕ → Windows → RateLimitDecision × Windows
count_call key limit window now windows =
    let w = current window now (lookup key windows) in
    let counted = record w { count = w.count + 1 } in
    if leb limit w.count
    then (refusal limit window now w, put key w windows)
    else (admission limit window counted, put key counted windows)

abbrev pub unlimited : RateLimitDecision
unlimited = record { allowed = true; limit = 0; remaining = 0; reset_epoch = 0; retry_after = 0 }

abbrev pub window_or_default : ℕ → ℕ
window_or_default window = if window == 0 then 60000000000 else window

unfoldable pub allow : String → ℕ → ℕ → ℕ → Windows → RateLimitDecision × Windows
allow key limit window now windows =
    if limit == 0
    then (unlimited, windows)
    else count_call key limit (window_or_default window) now
        (if leb 1024 (length windows) then cleanup now windows else windows)
