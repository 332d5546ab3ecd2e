-- ===== src/Examples/Pokes.antt =====
-- Buffers given by their bytes other than 0.
use advfs_fuse.Base.{ℕ, List, [], ◌∷◌, ◌==◌, if◌then◌else◌}
use advfs_fuse.Ods.{Bytes}

pub record Poke : Type 0 where
  pub pos : ℕ
  pub byte : ℕ

abbrev pub poked : List Poke → Bytes
poked [] i = 0
poked (p ∷ ps) i = if i == p.pos then p.byte else poked ps i

abbrev pub poke : ℕ → ℕ → Poke
poke pos byte = record { pos = pos; byte = byte }
