-- ===== src/Rag/Chunk/Window.antt =====
-- The windows that `ChunkText` of internal/rag/chunk.go cuts.
use mini_enclava_go.Common.{
  ℕ, zero, suc, ◌+◌, ◌-◌, ◌/◌, ◌≤◌, ◌<◌, List, leb, length, arith, inl, inr, leb→le, Bool-cases,
}
use mini_enclava_go.Common.Int64.{ℤ}
use mini_enclava_go.Rag.Chunk.{
  backtrack_loop, backtrack_to_boundary, window_size, window_overlap, window_end,
}

backtrack_loop-bounds :
    (runes : List ℕ) (min end i : ℕ)
    → min < end
    → i ≤ end
    → (min < backtrack_loop runes min end i) × (backtrack_loop runes min end i ≤ end)
unfolding backtrack_loop
backtrack_loop-bounds runes min end zero h g = omega arith
backtrack_loop-bounds runes min end (suc i) h g =
    ground (arith, backtrack_loop-bounds runes min end i h (omega arith))

pub window_end-bounds :
    (runes : List ℕ) (size start : ℕ)
    → 0 < size
    → start < length runes
    → (start < window_end runes size start)
      × (window_end runes size start ≤ start + size)
      × (window_end runes size start ≤ length runes)
unfolding window_end backtrack_to_boundary
window_end-bounds runes size start h g = elim (Bool-cases (leb (length runes) (start + size))) [
  | inl last ↦ let fits = leb→le (length runes) (start + size) last in rw last (omega arith)
  | inr inside ↦
      let bounds =
        backtrack_loop-bounds runes (start + (start + size - start) / 2) (start + size)
          (start + size) (omega arith) (omega arith) in
      let beyond : start + size < length runes = ground (arith, inside) in rw inside (omega arith)
]

pub window_size-positive : (chunk_size : ℤ) → 0 < window_size chunk_size
window_size-positive chunk_size = ground arith

pub window_overlap-below : (size : ℕ) (overlap : ℤ) → 0 < size → window_overlap size overlap < size
window_overlap-below size overlap h = ground arith
