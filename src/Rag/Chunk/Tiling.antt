-- ===== src/Rag/Chunk/Tiling.antt =====
-- `ChunkText` of internal/rag/chunk.go ends, and its windows cover the text.
use mini_enclava_go.Common.{
  ℕ, zero, suc, ◌+◌, ◌≤◌, ◌<◌, ◌≡◌, refl, ◌∙◌, inl, inr, ◌⊎◌, true, false, List, [], ◌∷◌, some, ltb,
  leb, ltb→lt, length, length-slice, slice, arith, Bool-cases, Each,
}
use mini_enclava_go.Common.Int64.{ℤ}
use mini_enclava_go.Rag.Chunk.{
  window_size, window_overlap, window_end, next_start, is_empty, keep_chunk, chunk_loop, chunk_text,
  normalize_text,
}
use mini_enclava_go.Rag.Chunk.Window.{window_end-bounds, window_size-positive}

-- Windows from `start` to the end n of the text: each has at most `size` runes and moves on, and the
-- next one starts after it did, at most `overlap` runes before its end and not after it.
pub data IsTiling (size overlap n : ℕ) : ℕ → List (ℕ × ℕ) → Type 0 where
  last_window :
      {start : ℕ} → start < n → n ≤ start + size → IsTiling size overlap n start ((start, n) ∷ [])
  next_window :
      {start end next : ℕ} {windows : List (ℕ × ℕ)}
      → start < end
      → end ≤ start + size
      → end < n
      → start < next
      → next ≤ end
      → end ≤ next + overlap
      → IsTiling size overlap n next windows
      → IsTiling size overlap n start ((start, end) ∷ windows)

next_start-bounds :
    (overlap start end : ℕ)
    → start < end
    → (start < next_start overlap start end)
      × (next_start overlap start end ≤ end)
      × (end ≤ next_start overlap start end + overlap)
next_start-bounds overlap start end h = ground arith

-- A chunk with at least one rune and at most `size`.
abbrev pub IsChunk : ℕ → List ℕ → Type 0
IsChunk size chunk = (0 < length chunk) × (length chunk ≤ size)

is_empty-full : (runes : List ℕ) → 0 < length runes → is_empty runes ≡ false
is_empty-full [] h = absurd (omega arith)
is_empty-full (c ∷ cs) h = refl

List-cases : (runes : List ℕ) → (runes ≡ []) ⊎ (0 < length runes)
List-cases [] = inl refl
List-cases (c ∷ cs) = inr (omega arith)

module _ (trim_space : List ℕ → List ℕ) where
  -- The texts of the windows, without the empty ones.
  unfoldable pub chunks_of : List ℕ → List (ℕ × ℕ) → List (List ℕ)
  chunks_of runes [] = []
  chunks_of runes ((start, end) ∷ windows) =
      keep_chunk (trim_space (slice start end runes)) (chunks_of runes windows)

  chunk_loop-last :
      (runes : List ℕ) (size overlap fuel start : ℕ)
      → start < length runes
      → window_end runes size start ≡ length runes
      → chunk_loop trim_space runes size overlap (suc fuel) start
        ≡ some (keep_chunk (trim_space (slice start (length runes) runes)) [])
  unfolding chunk_loop
  chunk_loop-last runes size overlap fuel start h e =
      let inside : ltb start (length runes) ≡ true = ground arith in
      let ends : leb (length runes) (length runes) ≡ true = ground arith in
      rw (e, inside, ends) refl

  chunk_loop-next :
      (runes : List ℕ) (size overlap fuel start : ℕ) {chunks : List (List ℕ)}
      → start < length runes
      → window_end runes size start < length runes
      → chunk_loop trim_space runes size overlap fuel
          (next_start overlap start (window_end runes size start))
        ≡ some chunks
      → chunk_loop trim_space runes size overlap (suc fuel) start
        ≡ some (keep_chunk (trim_space (slice start (window_end runes size start) runes)) chunks)
  unfolding chunk_loop
  chunk_loop-next runes size overlap fuel start h g e =
      let inside : ltb start (length runes) ≡ true = ground arith in
      let more : leb (length runes) (window_end runes size start) ≡ false = ground arith in
      rw (inside, more, e) refl

  chunk_loop-Tiling :
      (runes : List ℕ) (size overlap fuel start : ℕ)
      → 0 < size
      → start < length runes
      → length runes < fuel + start
      → (windows : List (ℕ × ℕ)) × (chunk_loop trim_space runes size overlap fuel start
          ≡ some (chunks_of runes windows))
        × IsTiling size overlap (length runes) start windows
  unfolding chunks_of
  chunk_loop-Tiling runes size overlap zero start h g enough = absurd (omega arith)
  chunk_loop-Tiling runes size overlap (suc fuel) start h g enough =
      let end = window_end runes size start in
      let next = next_start overlap start end in
      let (moves, fits, inside) = window_end-bounds runes size start h g in
      let (on, before, near) = next_start-bounds overlap start end moves in
      elim (Bool-cases (ltb end (length runes))) [
        | inr last ↦
            let ends : end ≡ length runes = ground (arith, last, inside) in
            (
              (start, length runes) ∷ [],
              chunk_loop-last runes size overlap fuel start g ends,
              last_window g (omega arith),
            )
        | inl more ↦
            let later : end < length runes = ltb→lt end (length runes) more in
            let (windows, made, tiling) =
              chunk_loop-Tiling runes size overlap fuel next h (omega arith) (omega arith) in
            (
              (start, end) ∷ windows,
              chunk_loop-next runes size overlap fuel start g later made,
              next_window moves fits later on before near tiling,
            )
      ]

  chunk_text-empty :
      (text : List ℕ) (chunk_size overlap : ℤ)
      → normalize_text trim_space text ≡ []
      → chunk_text trim_space text chunk_size overlap ≡ some []
  unfolding chunk_text
  chunk_text-empty text chunk_size overlap e = rw e refl

  chunk_text-short :
      (text : List ℕ) (chunk_size overlap : ℤ)
      → 0 < length (normalize_text trim_space text)
      → length (normalize_text trim_space text) ≤ window_size chunk_size
      → chunk_text trim_space text chunk_size overlap ≡ some (normalize_text trim_space text ∷ [])
  unfolding chunk_text
  chunk_text-short text chunk_size overlap h g =
      let full = is_empty-full (normalize_text trim_space text) h in
      let short : leb (length (normalize_text trim_space text)) (window_size chunk_size) ≡ true =
        ground arith in
      rw (full, short) refl

  chunk_text-long :
      (text : List ℕ) (chunk_size overlap : ℤ)
      → window_size chunk_size < length (normalize_text trim_space text)
      → chunk_text trim_space text chunk_size overlap
        ≡ chunk_loop trim_space
            (normalize_text trim_space text)
            (window_size chunk_size)
            (window_overlap (window_size chunk_size) overlap)
            (suc (length (normalize_text trim_space text)))
            0
  unfolding chunk_text
  chunk_text-long text chunk_size overlap h =
      let full = is_empty-full (normalize_text trim_space text) (omega arith) in
      let long : leb (length (normalize_text trim_space text)) (window_size chunk_size) ≡ false =
        ground arith in
      rw (full, long) refl

  -- A normal text that is longer than the chunk size is cut to its end: `ChunkText` returns the texts
  -- of windows, less those that are blank, that start with the first rune, end with the last, have at
  -- most the chunk size, each start after the one before, at most the overlap before its end, and leave
  -- no rune out.
  pub chunk_text-Tiling :
      (text : List ℕ) (chunk_size overlap : ℤ)
      → window_size chunk_size < length (normalize_text trim_space text)
      → (windows : List (ℕ × ℕ)) × (chunk_text trim_space text chunk_size overlap
          ≡ some (chunks_of (normalize_text trim_space text) windows))
        × IsTiling
            (window_size chunk_size)
            (window_overlap (window_size chunk_size) overlap)
            (length (normalize_text trim_space text))
            0
            windows
  chunk_text-Tiling text chunk_size overlap h =
      let runes = normalize_text trim_space text in
      let (windows, made, tiling) =
        chunk_loop-Tiling runes (window_size chunk_size)
          (window_overlap (window_size chunk_size) overlap) (suc (length runes)) 0
          (window_size-positive chunk_size) (omega arith) (omega arith) in
      (windows, chunk_text-long text chunk_size overlap h ∙ made, tiling)

  module _ (short : (text : List ℕ) → length (trim_space text) ≤ length text) where
    keep_chunk-Each :
        (size : ℕ) (chunk : List ℕ) (chunks : List (List ℕ))
        → length chunk ≤ size
        → Each (IsChunk size) chunks
        → Each (IsChunk size) (keep_chunk chunk chunks)
    keep_chunk-Each size [] chunks h each = each
    keep_chunk-Each size (c ∷ cs) chunks h each = ((omega arith, h), each)

    piece-short :
        (runes : List ℕ) (size start end : ℕ)
        → end ≤ start + size
        → length (trim_space (slice start end runes)) ≤ size
    piece-short runes size start end h =
        omega (arith, short (slice start end runes), length-slice start end runes)

    Tiling-Each :
        (runes : List ℕ) (size overlap start : ℕ) (windows : List (ℕ × ℕ))
        → IsTiling size overlap (length runes) start windows
        → Each (IsChunk size) (chunks_of runes windows)
    unfolding chunks_of
    Tiling-Each runes size overlap start _ (last_window g h) =
        keep_chunk-Each size _ [] (piece-short runes size start (length runes) h) tt
    Tiling-Each runes size overlap start _
          (next_window {end} {next} {windows} moves fits more on before near tiling) =
        keep_chunk-Each size _ (chunks_of runes windows) (piece-short runes size start end fits)
          (Tiling-Each runes size overlap next windows tiling)

    -- `ChunkText` returns on every text, size and overlap, whatever `TrimSpace` is that does not make a
    -- text longer, and each chunk has at least one rune and at most the chunk size.
    pub chunk_text-total :
        (text : List ℕ) (chunk_size overlap : ℤ)
        → (chunks : List (List ℕ)) × (chunk_text trim_space text chunk_size overlap ≡ some chunks)
          × Each (IsChunk (window_size chunk_size)) chunks
    chunk_text-total text chunk_size overlap =
        let runes = normalize_text trim_space text in
        elim (List-cases runes) [
          | inl e ↦ ([], chunk_text-empty text chunk_size overlap e, tt)
          | inr full ↦ elim (Bool-cases (ltb (window_size chunk_size) (length runes))) [
            | inr fits ↦
                let h : length runes ≤ window_size chunk_size = ground (arith, fits) in
                (runes ∷ [], chunk_text-short text chunk_size overlap full h, ((full, h), tt))
            | inl longer ↦
                let h = ltb→lt (window_size chunk_size) (length runes) longer in
                let (windows, made, tiling) = chunk_text-Tiling text chunk_size overlap h in
                (
                  chunks_of runes windows,
                  made,
                  Tiling-Each runes (window_size chunk_size)
                      (window_overlap (window_size chunk_size) overlap) 0 windows tiling,
                )
          ]
        ]
