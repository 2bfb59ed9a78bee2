-- ===== src/Client/Sizes.antt =====
-- The sizes that the client computes, and what the loader needs.
use solana_sdk_sample.Base.{ℕ, ◌+◌, ◌*◌, ◌%◌, ◌≤◌, ◌<◌, ◌↔◌, arith}
use solana_sdk_sample.Client.{buffer_size, calculate_optimal_chunk_size}

-- The buffer account has room for the metadata and the program, unless the program's length is in
-- the four residues for which the 37 bytes of metadata pass the next multiple of 1024 that 33 do not.
pub buffer_size_iff : (n : ℕ) → (37 + n ≤ buffer_size n) ↔ ((n + 32) % 1024 < 1020)
unfolding buffer_size
buffer_size_iff n = (λ h. omega arith, λ h. omega arith)

-- The chunks cover the program: their number is the least that does.
pub chunks_cover :
    (n : ℕ)
    → let plan = calculate_optimal_chunk_size n in
      (n ≤ plan.total_chunks * plan.chunk_size)
      × (plan.total_chunks * plan.chunk_size < n + plan.chunk_size)
unfolding calculate_optimal_chunk_size
chunks_cover n = omega arith
