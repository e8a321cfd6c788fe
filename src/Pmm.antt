-- ===== src/Pmm.antt =====
-- kernel/mm/pmm.c, the allocator of physical frames: one bit for each frame of 4 KiB, 1 if it is
-- in use, and a running count of the bits set. `pmm_init` is in Pmm/Init.
pub mod Bitmap
pub mod Count
pub mod Valid
pub mod Alloc
pub mod Exclusive
pub mod Init
pub mod Tests
use simply_os.Base.{
  ℕ, zero, suc, ◌+◌, ◌-◌, ◌*◌, ◌/◌, ◌%◌, ◌^◌, bit_and, bit_or, Bool, true, false, not, ◌||◌, List,
  u8, u32, ltb, leb, ◌==◌, if◌then◌else◌, get_or, set,
}

abbrev pub page_size : ℕ
page_size = 4096

abbrev pub max_frames : ℕ
max_frames = 32768

-- `pmm_bitmap` (its bytes), `pmm_frame_count` and `pmm_used_count`.
pub record Pmm : Type 0 where
  pub bitmap : List ℕ
  pub frame_count : ℕ
  pub used_count : ℕ

abbrev pub addr_to_frame : ℕ → ℕ
addr_to_frame addr = addr / page_size

-- `1u << (frame % 8)` and `~(1u << (frame % 8))`.
abbrev pub bit_of : ℕ → ℕ
bit_of frame = 2 ^ (frame % 8)

abbrev pub not_bit_of : ℕ → ℕ
not_bit_of frame = 2 ^ 32 - 1 - bit_of frame

abbrev pub byte_of : Pmm → ℕ → ℕ
byte_of p frame = get_or p.bitmap (frame / 8) 0

-- `(pmm_bitmap[frame / 8] & (1u << (frame % 8))) == 0`
abbrev pub is_clear : Pmm → ℕ → Bool
is_clear p frame = bit_and (byte_of p frame) (bit_of frame) == 0

pub set_used : Pmm → ℕ → Bool → Pmm
set_used p frame used =
    if leb p.frame_count frame
    then p
    else if used
    then (record p {
      bitmap = set p.bitmap (frame / 8) (u8 (bit_or (byte_of p frame) (bit_of frame)));
      used_count = if is_clear p frame then u32 (p.used_count + 1) else p.used_count;
    })
    else (record p {
      bitmap = set p.bitmap (frame / 8) (u8 (bit_and (byte_of p frame) (not_bit_of frame)));
      used_count = if is_clear p frame then p.used_count else u32 (p.used_count + (2 ^ 32 - 1));
    })

-- The loop of `pmm_reserve_frames` and `pmm_free_frames_range` at `frame`, with the rounds that are
-- left before `end_frame`. The second test of the loop is made in each round.
pub set_range : Bool → ℕ → ℕ → Pmm → Pmm
set_range used zero frame p = p
set_range used (suc left) frame p =
    let rest = set_range used left (frame + 1) (set_used p frame used) in
    if ltb frame p.frame_count then rest else p

pub reserve_frames : Pmm → ℕ → ℕ → Pmm
reserve_frames p start_frame end_frame = set_range true (end_frame - start_frame) start_frame p

pub free_frames_range : Pmm → ℕ → ℕ → Pmm
free_frames_range p start_frame end_frame = set_range false (end_frame - start_frame) start_frame p

-- The search of `pmm_alloc_frame` at `frame`, with the frames that are left. The result is the
-- address, 0 for NULL.
pub alloc_from : Pmm → ℕ → ℕ → ℕ × Pmm
alloc_from p zero frame = (0, p)
alloc_from p (suc left) frame =
    let rest = alloc_from p left (frame + 1) in
    if is_clear p frame then (u32 (frame * page_size), set_used p frame true) else rest

pub alloc_frame : Pmm → ℕ × Pmm
alloc_frame p = alloc_from p (p.frame_count - 1) 1

pub free_frame : Pmm → ℕ → Pmm
free_frame p addr =
    if addr == 0 || not (addr % page_size == 0) then p else set_used p (addr_to_frame addr) false

pub total_frames : Pmm → ℕ
total_frames p = p.frame_count

pub used_frames : Pmm → ℕ
used_frames p = p.used_count

pub free_frames : Pmm → ℕ
free_frames p = if ltb p.frame_count p.used_count then 0 else p.frame_count - p.used_count
