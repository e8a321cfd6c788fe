-- ===== src/Libc/Strings/Copy.antt =====
-- `memset`, `memcpy` and `memmove`.
use simply_os.Base.{
  ℕ, zero, suc, ◌+◌, ◌-◌, ◌≤◌, ◌<◌, ◌≡◌, ◌⊎◌, inl, inr, ap, arith, Bool, ◌&&◌, ltb, leb,
  if◌then◌else◌, u8, ℕ_discrete, Bool-cases,
}
use simply_os.Libc.Strings.{Bytes, put, memset_loop, memset, copy_up, memcpy, copy_down, memmove}

abbrev pub within : ℕ → ℕ → ℕ → Bool
within lo size x = leb lo x && ltb x (lo + size)

memset_loop-lem :
    (buf value left i x : ℕ) (mem : Bytes)
    → memset_loop buf value left i mem x ≡ (if within (buf + i) left x then u8 value else mem x)
unfolding memset_loop put
memset_loop-lem buf value zero i x mem = ground arith
memset_loop-lem buf value (suc left) i x mem =
    ground (arith, memset_loop-lem buf value left (i + 1) x (put mem (buf + i) (u8 value)))

-- memset fills the bytes of the buffer with the low byte of the value and leaves all others.
pub memset-lem :
    (buf value size x : ℕ) (mem : Bytes)
    → memset buf value size mem x ≡ (if within buf size x then u8 value else mem x)
unfolding memset
memset-lem buf value size x mem = ground (arith, memset_loop-lem buf value size 0 x mem)

copy_up-lem :
    (dst src left i x : ℕ) (mem : Bytes)
    → (dst < src) ⊎ (src + left ≤ dst)
    → copy_up dst src left i mem x
      ≡ (if within (dst + i) left x then mem (src + (x - dst)) else mem x)
unfolding copy_up put
copy_up-lem dst src zero i x mem apart = ground arith
copy_up-lem dst src (suc left) i x mem apart =
    let next = put mem (dst + i) (mem (src + i)) in
    let ih = copy_up-lem dst src left (i + 1) x next (ground arith) in
    elim (ℕ_discrete x (dst + i)) [
      | yes here ↦ let at : src + (x - dst) ≡ src + i = omega arith in ground (arith, ih, ap mem at)
      | no other ↦ ground (arith, ih)
    ]

copy_down-lem :
    (dst src i x : ℕ) (mem : Bytes)
    → src ≤ dst
    → copy_down dst src i mem x ≡ (if within dst i x then mem (src + (x - dst)) else mem x)
unfolding copy_down put
copy_down-lem dst src zero x mem apart = ground arith
copy_down-lem dst src (suc i) x mem apart =
    let next = put mem (dst + i) (mem (src + i)) in
    let ih = copy_down-lem dst src i x next apart in
    elim (ℕ_discrete x (dst + i)) [
      | yes here ↦ let at : src + (x - dst) ≡ src + i = omega arith in ground (arith, ih, ap mem at)
      | no other ↦ ground (arith, ih)
    ]

-- What a copy leaves: the destination has the bytes that the source had, and all other bytes are as
-- they were.
abbrev pub Copied : ℕ → ℕ → ℕ → Bytes → Bytes → Type 0
Copied dst src size mem mem' =
    (x : ℕ) → mem' x ≡ (if within dst size x then mem (src + (x - dst)) else mem x)

-- memmove leaves in the destination the bytes that the source had, however the two ranges overlap,
-- and leaves all other bytes.
pub memmove-Copied :
    (dst src size : ℕ) (mem : Bytes) → Copied dst src size mem (memmove dst src size mem)
unfolding memmove
memmove-Copied dst src size mem x = elim (Bool-cases (ltb dst src)) [
  | inl up ↦
      let start : dst + 0 ≡ dst = omega arith in
      rw up (rw start at (copy_up-lem dst src size 0 x mem (inl (ground arith))))
  | inr down ↦ rw down (copy_down-lem dst src size x mem (ground arith))
]

-- memcpy leaves in the destination the bytes that the source had, and leaves all other bytes, if
-- the destination begins before the source or behind its end.
pub memcpy-Copied :
    (dst src size : ℕ) (mem : Bytes)
    → (dst < src) ⊎ (src + size ≤ dst)
    → Copied dst src size mem (memcpy dst src size mem)
unfolding memcpy
memcpy-Copied dst src size mem apart x =
    let start : dst + 0 ≡ dst = omega arith in rw start at (copy_up-lem dst src size 0 x mem apart)
