-- ===== src/Kheap/Chunks.antt =====
-- The heap without addresses: its blocks in order, and what the operations do to them.
pub mod Laws
pub mod Alloc
pub mod Growth
pub mod Release
use simply_os.Base.{
  ℕ, ◌+◌, ◌-◌, ◌%◌, ◌≤◌, ◌<◌, Bool, true, false, not, ◌&&◌, Option, none, some, List, [], ◌∷◌, ◌++◌,
  ◌≡◌, ◌⊎◌, ltb, leb, ◌==◌, if◌then◌else◌,
}

pub record Chunk : Type 0 where
  pub size : ℕ
  pub free : Bool

abbrev pub chunk : ℕ → Bool → Chunk
chunk n f = record { size = n; free = f }

-- At least a header and eight bytes, in units of eight.
abbrev pub IsChunk : Chunk → Type 0
IsChunk c = (24 ≤ c.size) × (c.size % 8 ≡ 0)

abbrev pub total : List Chunk → ℕ
total [] = 0
total (c ∷ cs) = c.size + total cs

abbrev pub used_total : List Chunk → ℕ
used_total [] = 0
used_total (c ∷ cs) = (if c.free then 0 else c.size) + used_total cs

-- No free block stands before another.
abbrev pub Coalesced : List Chunk → Type 0
Coalesced [] = Unit
Coalesced (c ∷ []) = Unit
Coalesced (c ∷ d ∷ cs) = ((c.free && d.free) ≡ false) × Coalesced (d ∷ cs)

-- A free block of at least `needed` bytes in use: cut if the rest can be a block.
unfoldable pub carve : ℕ → Chunk → List Chunk → List Chunk
carve needed c cs =
    if ltb c.size (needed + 24)
    then chunk c.size false ∷ cs
    else chunk needed false ∷ chunk (c.size - needed) true ∷ cs

abbrev pub fits : ℕ → Chunk → Bool
fits needed c = c.free && leb needed c.size

-- The first free block that is large enough: its offset, and the blocks after it is taken.
unfoldable pub first_fit : ℕ → List Chunk → Option (ℕ × List Chunk)
first_fit needed [] = none
first_fit needed (c ∷ cs) =
    if fits needed c
    then some (0, carve needed c cs)
    else elim (first_fit needed cs) [ none ↦ none | some (off, ds) ↦ some (c.size + off, c ∷ ds) ]

-- A block before others; two free ones become one.
unfoldable pub join : Chunk → List Chunk → List Chunk
join c [] = c ∷ []
join c (d ∷ ds) = if c.free && d.free then chunk (c.size + d.size) true ∷ ds else c ∷ d ∷ ds

-- The block at an offset is freed.
unfoldable pub release : ℕ → List Chunk → List Chunk
release off [] = []
release off (c ∷ cs) =
    let rest = release (off - c.size) cs in
    if off == 0 then join (chunk c.size true) cs else join c rest

-- Free bytes at the end.
unfoldable pub grow : ℕ → List Chunk → List Chunk
grow n [] = chunk n true ∷ []
grow n (c ∷ []) = join c (chunk n true ∷ [])
grow n (c ∷ d ∷ cs) = c ∷ grow n (d ∷ cs)

-- A block in use stands at this offset, with this size.
abbrev pub UsedAt : ℕ → ℕ → List Chunk → Type 0
UsedAt off n [] = ⊥
UsedAt off n (c ∷ cs) =
    (off ≡ 0) × (c.size ≡ n) × (c.free ≡ false) ⊎ (c.size ≤ off) × UsedAt (off - c.size) n cs
