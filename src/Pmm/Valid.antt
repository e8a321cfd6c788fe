-- ===== src/Pmm/Valid.antt =====
-- The invariant of the allocator's state, and what `pmm_set_used` does to it.
use simply_os.Base.{
  ℕ, ◌+◌, ◌-◌, ◌/◌, ◌%◌, ◌^◌, ◌≤◌, ◌<◌, bit_and, bit_or, Bool, true, false, not, ◌≡◌, arith, u8,
  u32, lt→leb-false, le→leb, dec_lt, ◌==◌, if◌then◌else◌, get_or, set, length, length-set,
  get_or-set_self, get_or-set_ne, ℕ_discrete, ◌∙◌,
}
use simply_os.Pmm.{Pmm, max_frames, bit_of, not_bit_of, byte_of, is_clear, set_used}
use simply_os.Pmm.Bitmap.{bit_at, bit_at-set_bit, bit_at-clear_bit}
use simply_os.Pmm.Count.{count, count-change, count-le}

-- Whether a frame is marked as in use.
abbrev pub is_used : Pmm → ℕ → Bool
is_used p frame = not (is_clear p frame)

pub record IsValid (p : Pmm) : Type 0 where
  pub bitmap_size : length p.bitmap ≡ 4096
  pub bytes : (i : ℕ) → get_or p.bitmap i 0 < 256
  pub few : p.frame_count ≤ max_frames
  pub counted : p.used_count ≡ count (is_used p) p.frame_count

module _ (p : Pmm) (v : IsValid p) (frame : ℕ) (inside : frame < p.frame_count) where
  pub byte_inside : frame / 8 < length p.bitmap
  byte_inside = omega (arith, v.few, v.bitmap_size)

  -- A byte that replaces the one of `frame`: the bits of other bytes stay.
  module _ (b : ℕ) (now : Bool)
      (bits : (j : ℕ)
        → j < 8
        → bit_at b j ≡ (if j == frame % 8 then now else bit_at (byte_of p frame) j)) where
    is_used-set :
        (j : ℕ)
        → not (bit_and (get_or (set p.bitmap (frame / 8) b) (j / 8) 0) (bit_of j) == 0)
          ≡ (if j == frame then now else is_used p j)
    is_used-set j = elim (ℕ_discrete (frame / 8) (j / 8)) [
      | yes e ↦
          rw (← e, get_or-set_self p.bitmap (frame / 8) b 0 byte_inside, bits (j % 8) (omega arith))
            (ground arith)
      | no ne ↦ rw (get_or-set_ne p.bitmap (frame / 8) (j / 8) b 0 ne) (ground arith)
    ]

  -- After `pmm_set_used` the frame is as was asked for, and every other frame as it was.
  pub is_used-set_used :
      (used : Bool) (j : ℕ)
      → is_used (set_used p frame used) j ≡ (if j == frame then used else is_used p j)
  unfolding set_used
  is_used-set_used true j = rw (lt→leb-false p.frame_count frame inside) (
      is_used-set _ true (bit_at-set_bit (byte_of p frame) (frame % 8) (v.bytes _) (omega arith)) j)
  is_used-set_used false j = rw (lt→leb-false p.frame_count frame inside) (
      is_used-set _ false (bit_at-clear_bit (byte_of p frame) (frame % 8) (v.bytes _) (omega arith))
        j)

  byte-set : (b i : ℕ) → b < 256 → get_or (set p.bitmap (frame / 8) b) i 0 < 256
  byte-set b i h = elim (ℕ_discrete (frame / 8) i) [
    | yes e ↦ rw (← e, get_or-set_self p.bitmap (frame / 8) b 0 byte_inside) h
    | no ne ↦ rw (get_or-set_ne p.bitmap (frame / 8) i b 0 ne) (v.bytes i)
  ]

  pub set_used-used_count :
      (used : Bool)
      → (set_used p frame used).used_count ≡ (
          if used
          then (if is_used p frame then p.used_count else u32 (p.used_count + 1))
          else (if is_used p frame then u32 (p.used_count + (2 ^ 32 - 1)) else p.used_count))
  unfolding set_used
  set_used-used_count used = ground (arith, lt→leb-false p.frame_count frame inside)

  set_used-counted :
      (used : Bool)
      → (set_used p frame used).used_count ≡ count (is_used (set_used p frame used)) p.frame_count
  set_used-counted used =
      let before = is_used p in
      let after = is_used (set_used p frame used) in
      let change =
        count-change before after p.frame_count frame inside
          (λ j ne. ground (arith, is_used-set_used used j)) in
      ground (
        arith,
        change,
        is_used-set_used used frame,
        set_used-used_count used,
        count-le before p.frame_count,
        count-le after p.frame_count,
        v.few,
        v.counted,
      )

-- The bitmap has one byte written.
pub bitmap-set_used :
    (p : Pmm) (frame : ℕ)
    → frame < p.frame_count
    → (used : Bool)
    → (set_used p frame used).bitmap ≡ (
        if used
        then set p.bitmap (frame / 8) (u8 (bit_or (byte_of p frame) (bit_of frame)))
        else set p.bitmap (frame / 8) (u8 (bit_and (byte_of p frame) (not_bit_of frame))))
unfolding set_used
bitmap-set_used p frame inside true = rw (lt→leb-false p.frame_count frame inside)
bitmap-set_used p frame inside false = rw (lt→leb-false p.frame_count frame inside)

pub used_count-small : (p : Pmm) → IsValid p → p.used_count ≤ p.frame_count
used_count-small p v = omega (arith, v.counted, count-le (is_used p) p.frame_count)

pub frame_count-set_used :
    (p : Pmm) (frame : ℕ) (used : Bool) → (set_used p frame used).frame_count ≡ p.frame_count
unfolding set_used
frame_count-set_used p frame used = ground arith

pub set_used-outside :
    (p : Pmm) (frame : ℕ) (used : Bool) → p.frame_count ≤ frame → set_used p frame used ≡ p
unfolding set_used
set_used-outside p frame used h = rw (le→leb p.frame_count frame h)

length-set_used :
    (p : Pmm) (frame : ℕ) (used : Bool) → length (set_used p frame used).bitmap ≡ length p.bitmap
unfolding set_used
length-set_used p frame used = ground (
  arith,
  length-set p.bitmap (frame / 8) (u8 (bit_or (byte_of p frame) (bit_of frame))),
  length-set p.bitmap (frame / 8) (u8 (bit_and (byte_of p frame) (not_bit_of frame))),
)

bytes-set_used :
    (p : Pmm)
    → IsValid p
    → (frame : ℕ) → frame < p.frame_count
    → (used : Bool) (i : ℕ) → get_or (set_used p frame used).bitmap i 0 < 256
unfolding set_used
bytes-set_used p v frame inside true i =
    rw (lt→leb-false p.frame_count frame inside) (byte-set p v frame inside _ i (omega arith))
bytes-set_used p v frame inside false i =
    rw (lt→leb-false p.frame_count frame inside) (byte-set p v frame inside _ i (omega arith))

pub set_used-IsValid :
    (p : Pmm) → IsValid p → (frame : ℕ) (used : Bool) → IsValid (set_used p frame used)
set_used-IsValid p v frame used = elim (dec_lt frame p.frame_count) [
  | yes inside ↦ record {
    bitmap_size = length-set_used p frame used ∙ v.bitmap_size;
    bytes = bytes-set_used p v frame inside used;
    few = rw frame_count-set_used v.few;
    counted = rw frame_count-set_used (set_used-counted p v frame inside used);
  }
  | no outside ↦ rw (set_used-outside p frame used (omega arith)) v
]
