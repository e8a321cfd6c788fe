-- ===== src/Pmm/Alloc.antt =====
-- `pmm_alloc_frame` and `pmm_free_frame`: the first free frame is found, and freeing it takes the
-- allocation back.
use simply_os.Base.{
  ℕ, zero, suc, ◌+◌, ◌-◌, ◌*◌, ◌/◌, ◌%◌, ◌≤◌, ◌<◌, bit_and, bit_or, true, false, not, ◌≡◌, refl,
  ◌≢◌, ap, arith, u8, ltb, ◌==◌, if◌then◌else◌, set, Bool-cases, inl, inr, ◌⊎◌, ◌∙◌, set-set,
  set-get_or, get_or-set_self, ℕ_discrete, dec_lt, ◌&&◌, ◌||◌,
}
use simply_os.Pmm.{
  Pmm, page_size, max_frames, bit_of, not_bit_of, byte_of, is_clear, set_used, alloc_from,
  alloc_frame, free_frame, free_frames, used_frames, total_frames,
}
use simply_os.Pmm.Bitmap.{clear_bit-set_bit}
use simply_os.Pmm.Valid.{
  IsValid, is_used, is_used-set_used, bitmap-set_used, used_count-small, frame_count-set_used,
  set_used-outside, set_used-IsValid, set_used-used_count, byte_inside,
}

-- The two outcomes of a search that begins at frame `from`: NULL with every frame in use, or the
-- address of the first frame not in use, which is then marked.
pub data Allocates (p : Pmm) (from : ℕ) (r : ℕ × Pmm) : Type 0 where
  exhausted :
      r ≡ (0, p)
      → ((j : ℕ) → from ≤ j → j < p.frame_count → is_used p j ≡ true)
      → Allocates p from r
  found :
      (frame : ℕ)
      → from ≤ frame
      → frame < p.frame_count
      → is_used p frame ≡ false
      → ((j : ℕ) → from ≤ j → j < frame → is_used p j ≡ true)
      → r ≡ (frame * page_size, set_used p frame true)
      → Allocates p from r

Allocates-suc :
    {p : Pmm} {from : ℕ} {r : ℕ × Pmm}
    → is_used p from ≡ true
    → Allocates p (from + 1) r
    → Allocates p from r
Allocates-suc {p} {from} used (exhausted e all) = exhausted e λ j lo hi. elim (ℕ_discrete from j) [
  | yes same ↦ rw (← same) used
  | no ne ↦ all j (omega arith) hi
]
Allocates-suc {p} {from} used (found frame lo hi free all e) =
    found frame (omega arith) hi free
      (λ j lo hi. elim (ℕ_discrete from j) [
        | yes same ↦ rw (← same) used
        | no ne ↦ all j (omega arith) hi
      ])
      e

alloc_from-Allocates :
    (p : Pmm)
    → p.frame_count ≤ max_frames
    → (left from : ℕ) → left + from ≡ p.frame_count ⊎ (left ≡ 0) × (p.frame_count ≤ from)
    → Allocates p from (alloc_from p left from)
unfolding alloc_from
alloc_from-Allocates p few zero from ends = exhausted refl (λ j lo hi. absurd (omega arith))
alloc_from-Allocates p few (suc left) from ends = elim (Bool-cases (is_clear p from)) [
  | inl free ↦ rw free (
      found from (omega arith) (omega arith) (rw free) (λ j lo hi. absurd (omega arith))
        (ap (λ a. (a, set_used p from true)) (omega arith)))
  | inr used ↦
      rw used (Allocates-suc (rw used) (alloc_from-Allocates p few left (from + 1) (omega arith)))
]

-- pmm_alloc_frame on a valid state returns NULL and changes nothing exactly when every frame from
-- 1 on is in use; otherwise it returns the address of the lowest frame from 1 on that is not in
-- use, and marks it.
pub alloc_frame-Allocates : (p : Pmm) → IsValid p → Allocates p 1 (alloc_frame p)
unfolding alloc_frame
alloc_frame-Allocates p v = alloc_from-Allocates p v.few (p.frame_count - 1) 1 (ground arith)

Pmm-ext :
    {p q : Pmm}
    → p.bitmap ≡ q.bitmap
    → p.frame_count ≡ q.frame_count
    → p.used_count ≡ q.used_count
    → p ≡ q
Pmm-ext b f u = λ i. record { bitmap = b i; frame_count = f i; used_count = u i }

module _ (p : Pmm) (v : IsValid p) (frame : ℕ) (inside : frame < p.frame_count)
    (free : is_used p frame ≡ false) where
  marked : Pmm
  marked = set_used p frame true

  marked_byte : byte_of marked frame ≡ u8 (bit_or (byte_of p frame) (bit_of frame))
  unfolding marked
  marked_byte =
      rw (bitmap-set_used p frame inside true)
        (get_or-set_self p.bitmap (frame / 8) _ 0 (byte_inside p v frame inside))

  bitmap_undo : (set_used marked frame false).bitmap ≡ p.bitmap
  unfolding marked
  bitmap_undo =
      bitmap-set_used marked frame (rw frame_count-set_used inside) false
      ∙ ap (λ b. set marked.bitmap (frame / 8) (u8 (bit_and b (not_bit_of frame)))) marked_byte
      ∙ ap (set marked.bitmap (frame / 8))
          (clear_bit-set_bit (byte_of p frame) (frame % 8) (v.bytes _) (omega arith) free)
      ∙ ap (λ m. set m (frame / 8) (byte_of p frame)) (bitmap-set_used p frame inside true)
      ∙ set-set p.bitmap (frame / 8) _ (byte_of p frame)
      ∙ set-get_or p.bitmap (frame / 8) 0

  used_count_undo : (set_used marked frame false).used_count ≡ p.used_count
  unfolding marked
  used_count_undo =
      let q_inside : frame < marked.frame_count = rw frame_count-set_used inside in
      ground (
        arith,
        set_used-used_count p v frame inside true,
        set_used-used_count marked (set_used-IsValid p v frame true) frame q_inside false,
        is_used-set_used p v frame inside true frame,
        used_count-small p v,
        v.few,
      )

  -- Clearing the mark that was set gives the state back.
  set_used_undo : set_used (set_used p frame true) frame false ≡ p
  unfolding marked
  set_used_undo =
      Pmm-ext bitmap_undo
        (frame_count-set_used marked frame false ∙ frame_count-set_used p frame true)
        used_count_undo

pub free_frame-frame :
    (p : Pmm) (frame : ℕ) → 0 < frame → free_frame p (frame * page_size) ≡ set_used p frame false
unfolding free_frame
free_frame-frame p frame h = ground arith

-- pmm_free_frame on a valid state acts only on a page-aligned address other than 0 of a frame that
-- exists, and then clears the mark of that frame and no other.
pub is_used-free_frame :
    (p : Pmm) (addr j : ℕ)
    → IsValid p
    → is_used (free_frame p addr) j ≡ (
        if not (addr == 0)
          && addr % page_size == 0
          && ltb (addr / page_size) p.frame_count
          && j == addr / page_size
        then false
        else is_used p j)
unfolding free_frame
is_used-free_frame p addr j v = elim (dec_lt (addr / page_size) p.frame_count) [
  | yes inside ↦ ground (arith, is_used-set_used p v (addr / page_size) inside false j)
  | no outside ↦ rw (set_used-outside p (addr / page_size) false (omega arith)) (ground arith)
]

pub free_frame-IsValid : (p : Pmm) (addr : ℕ) → IsValid p → IsValid (free_frame p addr)
unfolding free_frame
free_frame-IsValid p addr v = elim (Bool-cases (addr == 0 || not (addr % page_size == 0))) [
  | inl skip ↦ rw skip v
  | inr act ↦ rw act (set_used-IsValid p v (addr / page_size) false)
]

pub frame_count-free_frame : (p : Pmm) (addr : ℕ) → (free_frame p addr).frame_count ≡ p.frame_count
unfolding free_frame
frame_count-free_frame p addr = ground (arith, frame_count-set_used p (addr / page_size) false)

pub alloc_frame-IsValid : (p : Pmm) → IsValid p → IsValid (alloc_frame p).1
alloc_frame-IsValid p v = go (alloc_frame p) (alloc_frame-Allocates p v)
  where
    go : (r : ℕ × Pmm) → Allocates p 1 r → IsValid r.1
    go r (exhausted e all) = rw e v
    go r (found frame lo hi free all e) = rw e (set_used-IsValid p v frame true)

-- Freeing what was just allocated on a valid state gives back the very state before, bitmap and
-- counters.
pub free_frame-alloc_frame :
    (p : Pmm)
    → IsValid p
    → (alloc_frame p).0 ≢ 0
    → free_frame (alloc_frame p).1 (alloc_frame p).0 ≡ p
free_frame-alloc_frame p v ne = go (alloc_frame p) (alloc_frame-Allocates p v) ne
  where
    go : (r : ℕ × Pmm) → Allocates p 1 r → r.0 ≢ 0 → free_frame r.1 r.0 ≡ p
    go r (exhausted e all) ne = absurd (ne (ap (λ (t : ℕ × Pmm). t.0) e))
    go r (found frame lo hi free all e) ne =
        rw (e, free_frame-frame (set_used p frame true) frame lo) (set_used_undo p v frame hi free)

-- On a valid state the three statistics add up: free frames and used frames are all frames.
pub free_frames-add-used_frames :
    (p : Pmm) → IsValid p → free_frames p + used_frames p ≡ total_frames p
unfolding free_frames used_frames total_frames
free_frames-add-used_frames p v = ground (arith, used_count-small p v)
