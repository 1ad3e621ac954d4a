-- ===== src/Httpx/RateLimiter/Window.antt =====
-- What `allow` of internal/httpx/ratelimit.go promises for one key.
use mini_enclava_go.Common.{
  ℕ, ◌+◌, ◌≤◌, ◌≡◌, refl, sym, ap, ◌∙◌, inl, inr, Bool, true, false, String, str_eq, eq_iff, [],
  ◌∷◌, Option, none, some, leb, ◌==◌, length, if◌then◌else◌, arith, Bool-cases,
}
use mini_enclava_go.Httpx.RateLimiter.{
  RateWindow, Windows, lookup, put, is_over, cleanup, current, count_call, allow,
}

-- Every key has one window.
abbrev pub AreDistinct : Windows → Type 0
AreDistinct [] = Unit {0}
AreDistinct ((k, w) ∷ rest) = (lookup k rest ≡ none) × AreDistinct rest

cleanup-absent :
    (now : ℕ) (k : String) (ws : Windows) → lookup k ws ≡ none → lookup k (cleanup now ws) ≡ none
unfolding lookup cleanup
cleanup-absent now k [] h = refl
cleanup-absent now k ((key, w) ∷ rest) h = elim (Bool-cases (str_eq key k)) [
  | inl same ↦ absurd (ground (arith, same))
  | inr other ↦
      let later = cleanup-absent now k rest (ground (arith, other)) in
      elim (Bool-cases (is_over now w)) [
        | inl over ↦ rw over later
        | inr live ↦ rw live (ground (arith, other, later))
      ]
]

-- The clean-up takes a key's window exactly when it is over.
abbrev unless_over : ℕ → Option RateWindow → Option RateWindow
unless_over now none = none
unless_over now (some w) = if is_over now w then none else some w

cleanup-lookup :
    (now : ℕ) (k : String) (ws : Windows)
    → AreDistinct ws
    → lookup k (cleanup now ws) ≡ unless_over now (lookup k ws)
unfolding lookup cleanup
cleanup-lookup now k [] d = refl
cleanup-lookup now k ((key, w) ∷ rest) d = elim (Bool-cases (str_eq key k)) [
  | inl same ↦
      let e : key ≡ k = ground (arith, eq_iff key k) in
      let gone = cleanup-absent now k rest (ap (λ x. lookup x rest) (sym e) ∙ d.0) in
      elim (Bool-cases (is_over now w)) [
        | inl over ↦ rw (over, same) (gone ∙ rw over refl)
        | inr live ↦ rw (live, same) (rw live refl)
      ]
  | inr other ↦
      let later = cleanup-lookup now k rest d.1 in
      elim (Bool-cases (is_over now w)) [
        | inl over ↦ rw (over, other) later
        | inr live ↦ rw (live, other) later
      ]
]

lookup-put : (k : String) (w : RateWindow) (ws : Windows) → lookup k (put k w ws) ≡ some w
unfolding lookup put
lookup-put k w [] = ground (arith, eq_iff k k)
lookup-put k w ((key, v) ∷ rest) = elim (Bool-cases (str_eq key k)) [
  | inl same ↦ rw same (ground (arith, eq_iff k k))
  | inr other ↦ rw other (rw other (lookup-put k w rest))
]

-- The window of a key was opened for this length.
abbrev pub HasTtl : ℕ → Option RateWindow → Type 0
HasTtl window none = Unit {0}
HasTtl window (some w) = w.ttl ≡ window

-- The table of one key alone.
abbrev pub table_of : String → Option RateWindow → Windows
table_of k none = []
table_of k (some w) = (k, w) ∷ []

abbrev pub only : String → Windows → Windows
only k ws = table_of k (lookup k ws)

current-unless_over :
    (window now : ℕ) (o : Option RateWindow)
    → HasTtl window o
    → current window now (unless_over now o) ≡ current window now o
unfolding current
current-unless_over window now none h = refl
current-unless_over window now (some w) h = elim (Bool-cases (is_over now w)) [
  | inl over ↦ rw over (ground (arith, h, over))
  | inr live ↦ rw live refl
]

-- Two tables that give a key the same current window answer alike and store the same window.
count_call-alike :
    (key : String) (limit window now : ℕ) (ws vs : Windows)
    → current window now (lookup key ws) ≡ current window now (lookup key vs)
    → ((count_call key limit window now ws).0 ≡ (count_call key limit window now vs).0)
      × (lookup key (count_call key limit window now ws).1
          ≡ lookup key (count_call key limit window now vs).1)
unfolding count_call
count_call-alike key limit window now ws vs e =
    let w = current window now (lookup key vs) in
    let next : RateWindow = record w { count = w.count + 1 } in
    elim (Bool-cases (leb limit w.count)) [
      | inl full ↦ rw (count_call, e, full) (refl, lookup-put key w ws ∙ sym (lookup-put key w vs))
      | inr free ↦
          rw (count_call, e, free) (refl, lookup-put key next ws ∙ sym (lookup-put key next vs))
    ]

lookup-table_of : (k : String) (o : Option RateWindow) → lookup k (table_of k o) ≡ o
unfolding lookup
lookup-table_of k none = refl
lookup-table_of k (some w) = ground (arith, eq_iff k k)

swept_lem :
    (full : Bool) (key : String) (window now : ℕ) (ws : Windows)
    → AreDistinct ws
    → HasTtl window (lookup key ws)
    → current window now (lookup key (if full then cleanup now ws else ws))
      ≡ current window now (lookup key ws)
swept_lem true key window now ws d h =
    ap (λ o. current window now o) (cleanup-lookup now key ws d)
    ∙ current-unless_over window now (lookup key ws) h
swept_lem false key window now ws d h = refl

-- With a positive limit and window, where every key has one window and the key's own was opened for
-- this length: the answer, and the window that is stored for the key, are those of a table that holds
-- nothing but the key's own window, whatever other keys the table has and whether it was cleaned up.
pub allow-only :
    (key : String) (limit window now : ℕ) (ws : Windows)
    → 1 ≤ limit
    → 1 ≤ window
    → AreDistinct ws
    → HasTtl window (lookup key ws)
    → ((allow key limit window now ws).0 ≡ (count_call key limit window now (only key ws)).0)
      × (lookup key (allow key limit window now ws).1
          ≡ lookup key (count_call key limit window now (only key ws)).1)
unfolding allow
allow-only key limit window now ws some_limit some_window d h =
    let bounded : limit == 0 ≡ false = ground arith in
    let chosen : window == 0 ≡ false = ground arith in
    rw (allow, bounded, chosen)
      (count_call-alike key limit window now (if leb 1024 (length ws) then cleanup now ws else ws)
        (only key ws)
        (swept_lem (leb 1024 (length ws)) key window now ws d h
          ∙ ap (λ o. current window now o) (sym (lookup-table_of key (lookup key ws)))))
