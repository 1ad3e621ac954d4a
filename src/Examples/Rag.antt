-- ===== src/Examples/Rag.antt =====
-- internal/rag at concrete texts.
use mini_enclava_go.Common.{ℕ, ◌≡◌, refl, List, [], ◌∷◌, some, length, Each, arith}
use mini_enclava_go.Common.Int64.{pos, negsuc}
use mini_enclava_go.Rag.Chunk.{
  chunk_text, chunk_loop, normalize_text, replace_blanks, window_end, backtrack_to_boundary,
  backtrack_loop,
}
use mini_enclava_go.Rag.Chunk.Tiling.{
  IsTiling, IsChunk, chunks_of, chunk_text-Tiling, chunk_text-total,
}

-- "ab cd\n\nef g".
abbrev words : List ℕ
words = 97 ∷ 98 ∷ 32 ∷ 99 ∷ 100 ∷ 10 ∷ 10 ∷ 101 ∷ 102 ∷ 32 ∷ 103 ∷ []

abbrev normal_words : List ℕ
normal_words = 97 ∷ 98 ∷ 32 ∷ 99 ∷ 100 ∷ 32 ∷ 101 ∷ 102 ∷ 32 ∷ 103 ∷ []

abbrev untrimmed : List ℕ → List ℕ
untrimmed text = text

chunk_text-Tiling_example :
    (windows : List (ℕ × ℕ)) × (chunk_text untrimmed words (pos 4) (pos 1)
      ≡ some (chunks_of untrimmed (normalize_text untrimmed words) windows))
    × IsTiling 4 1 (length (normalize_text untrimmed words)) 0 windows
unfolding normalize_text replace_blanks
chunk_text-Tiling_example = chunk_text-Tiling untrimmed words (pos 4) (pos 1) (omega arith)

chunk_text-total_example :
    (chunks : List (List ℕ)) × (chunk_text untrimmed words (pos 4) (negsuc 0) ≡ some chunks)
    × Each (IsChunk 4) chunks
chunk_text-total_example = chunk_text-total untrimmed (λ text. omega arith) words (pos 4) (negsuc 0)

cut :
    chunk_text untrimmed words (pos 4) (pos 1)
    ≡ some (
        (97 ∷ 98 ∷ 32 ∷ [])
        ∷ (32 ∷ 99 ∷ 100 ∷ 32 ∷ [])
        ∷ (32 ∷ 101 ∷ 102 ∷ 32 ∷ [])
        ∷ (32 ∷ 103 ∷ [])
        ∷ [])
unfolding chunk_text chunk_loop normalize_text replace_blanks window_end backtrack_to_boundary
    backtrack_loop
cut = refl
