-- ===== src/Libc/Strings.antt =====
-- libc/string: the loops over memory, byte by byte. A size is the number of rounds of a loop, and
-- `i` its index.
pub mod Copy
pub mod Compare
mod Tests
use simply_os.Base.{ℕ, zero, suc, ◌+◌, Option, none, some, ltb, ◌==◌, if◌then◌else◌, u8, ◌^◌}

abbrev pub Bytes : Type 0
Bytes = ℕ → ℕ

unfoldable pub put : Bytes → ℕ → ℕ → Bytes
put mem a v x = if x == a then v else mem x

pub memset_loop : ℕ → ℕ → ℕ → ℕ → Bytes → Bytes
memset_loop buf value zero i mem = mem
memset_loop buf value (suc left) i mem =
    memset_loop buf value left (i + 1) (put mem (buf + i) (u8 value))

pub memset : ℕ → ℕ → ℕ → Bytes → Bytes
memset buf value size mem = memset_loop buf value size 0 mem

-- The loop of `memcpy`, and the first one of `memmove`.
pub copy_up : ℕ → ℕ → ℕ → ℕ → Bytes → Bytes
copy_up dst src zero i mem = mem
copy_up dst src (suc left) i mem = copy_up dst src left (i + 1) (put mem (dst + i) (mem (src + i)))

pub memcpy : ℕ → ℕ → ℕ → Bytes → Bytes
memcpy dst src size mem = copy_up dst src size 0 mem

-- The second loop of `memmove`, from the index down.
pub copy_down : ℕ → ℕ → ℕ → Bytes → Bytes
copy_down dst src zero mem = mem
copy_down dst src (suc i) mem = copy_down dst src i (put mem (dst + i) (mem (src + i)))

pub memmove : ℕ → ℕ → ℕ → Bytes → Bytes
memmove dst src size mem =
    if ltb dst src then copy_up dst src size 0 mem else copy_down dst src size mem

-- What `memcmp` returns: -1, 0 or 1.
pub data Order : Type 0 where
  before : Order
  same : Order
  behind : Order

pub memcmp_loop : ℕ → ℕ → ℕ → ℕ → Bytes → Order
memcmp_loop a b zero i mem = same
memcmp_loop a b (suc left) i mem =
    let rest = memcmp_loop a b left (i + 1) mem in
    if ltb (mem (a + i)) (mem (b + i))
    then before
    else if ltb (mem (b + i)) (mem (a + i))
    then behind
    else rest

pub memcmp : ℕ → ℕ → ℕ → Bytes → Order
memcmp a b size mem = memcmp_loop a b size 0 mem

-- The loop of `strlen` with fuel; `none` where the fuel is used up.
pub strlen_loop : ℕ → ℕ → ℕ → Bytes → Option ℕ
strlen_loop str zero len mem = none
strlen_loop str (suc fuel) len mem =
    let rest = strlen_loop str fuel (len + 1) mem in if mem (str + len) == 0 then some len else rest

-- A string ends before the end of the address space.
pub strlen : ℕ → Bytes → Option ℕ
strlen str mem = strlen_loop str (2 ^ 32) 0 mem
