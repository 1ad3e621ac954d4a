-- ===== src/Rag/Chunk.antt =====
-- `ChunkText` and `backtrackToBoundary` of internal/rag/chunk.go, `normalizeText` of text.go. A text is
-- the list of its runes. `strings.TrimSpace` is an argument.
pub mod Window
pub mod Tiling
use mini_enclava_go.Common.{
  ℕ, zero, suc, ◌+◌, ◌-◌, ◌/◌, Bool, true, false, not, ◌||◌, List, [], ◌∷◌, Option, none, some, ltb,
  leb, ◌==◌, length, get_elem?, slice, if◌then◌else◌,
}
use mini_enclava_go.Common.Int64.{ℤ, pos, is_negative, ltb_ℤ, pos_part}

abbrev pub default_chunk_size : ℕ
default_chunk_size = 1000

-- The class `[ \t\r\n]` of `spaceRE`.
abbrev pub is_blank : ℕ → Bool
is_blank c = (c == 32) || ((c == 9) || ((c == 13) || (c == 10)))

-- `spaceRE.ReplaceAllString(value, " ")`; the flag says that the run of blanks is written.
unfoldable pub replace_blanks : Bool → List ℕ → List ℕ
replace_blanks in_run [] = []
replace_blanks in_run (c ∷ cs) =
    if is_blank c
    then (if in_run then replace_blanks true cs else 32 ∷ replace_blanks true cs)
    else c ∷ replace_blanks false cs

-- `.`, `!`, `?`, a line feed or a space.
abbrev pub is_boundary : ℕ → Bool
is_boundary c = (c == 46) || ((c == 33) || ((c == 63) || ((c == 10) || (c == 32))))

-- The callers stay inside the text; where Go panics there is no boundary.
abbrev pub is_boundary_at : List ℕ → ℕ → Bool
is_boundary_at runes i = elim (get_elem? runes i) [ some c ↦ is_boundary c | none ↦ false ]

-- The loop of `backtrackToBoundary` down from i.
unfoldable pub backtrack_loop : List ℕ → ℕ → ℕ → ℕ → ℕ
backtrack_loop runes min end zero = end
backtrack_loop runes min end (suc i) =
    let rest = backtrack_loop runes min end i in
    if leb (suc i) min then end else if is_boundary_at runes i then suc i else rest

unfoldable pub backtrack_to_boundary : List ℕ → ℕ → ℕ → ℕ
backtrack_to_boundary runes start end = backtrack_loop runes (start + (end - start) / 2) end end

-- The size and the overlap that the first tests leave.
abbrev pub window_size : ℤ → ℕ
window_size chunk_size =
    if ltb_ℤ (pos 0) chunk_size then pos_part chunk_size else default_chunk_size

abbrev pub window_overlap : ℕ → ℤ → ℕ
window_overlap size overlap =
    let given = if is_negative overlap then 0 else pos_part overlap in
    if leb size given then size / 5 else given

-- The end of the window at `start`.
unfoldable pub window_end : List ℕ → ℕ → ℕ → ℕ
window_end runes size start =
    if leb (length runes) (start + size)
    then length runes
    else backtrack_to_boundary runes start (start + size)

-- The start of the next window. Go's `end - overlap` may be negative, where this one is 0: neither
-- passes `start`.
abbrev pub next_start : ℕ → ℕ → ℕ → ℕ
next_start overlap start end = if leb (end - overlap) start then end else end - overlap

abbrev pub is_empty : List ℕ → Bool
is_empty [] = true
is_empty (c ∷ cs) = false

abbrev pub keep_chunk : List ℕ → List (List ℕ) → List (List ℕ)
keep_chunk chunk chunks = if is_empty chunk then chunks else chunk ∷ chunks

module _ (trim_space : List ℕ → List ℕ) where
  unfoldable pub normalize_text : List ℕ → List ℕ
  normalize_text value = replace_blanks false (trim_space value)

  -- The loop of `ChunkText`, on fuel.
  unfoldable pub chunk_loop : List ℕ → ℕ → ℕ → ℕ → ℕ → Option (List (List ℕ))
  chunk_loop runes size overlap zero start = none
  chunk_loop runes size overlap (suc fuel) start =
      let end = window_end runes size start in
      let chunk = trim_space (slice start end runes) in
      let rest = chunk_loop runes size overlap fuel (next_start overlap start end) in
      if not (ltb start (length runes))
      then some []
      else if leb (length runes) end
      then some (keep_chunk chunk [])
      else elim rest [ none ↦ none | some chunks ↦ some (keep_chunk chunk chunks) ]

  -- The fuel is the number of runes and one more: each round moves `start` on.
  unfoldable pub chunk_text : List ℕ → ℤ → ℤ → Option (List (List ℕ))
  chunk_text text chunk_size overlap =
      let runes = normalize_text text in
      let size = window_size chunk_size in
      let rest = chunk_loop runes size (window_overlap size overlap) (suc (length runes)) 0 in
      if is_empty runes
      then some []
      else if leb (length runes) size
      then some (runes ∷ [])
      else rest
