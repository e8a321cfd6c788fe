-- ===== src/Pmm/Init/Range.antt =====
-- Loops over a range of frames, and what they leave of each frame.
use simply_os.Base.{
  ℕ, zero, suc, ◌+◌, ◌<◌, Bool, ◌&&◌, ◌≡◌, refl, arith, ltb, leb, if◌then◌else◌, dec_lt, lt→ltb,
  Bool-cases, inl, inr,
}
use simply_os.Pmm.{Pmm, set_used, set_range}
use simply_os.Pmm.Valid.{IsValid, is_used, is_used-set_used, set_used-IsValid, frame_count-set_used}

pub set_range-IsValid :
    (used : Bool) (left frame : ℕ) (p : Pmm) → IsValid p → IsValid (set_range used left frame p)
unfolding set_range
set_range-IsValid used zero frame p v = v
set_range-IsValid used (suc left) frame p v = elim (Bool-cases (ltb frame p.frame_count)) [
  | inl go ↦ rw go (
      set_range-IsValid used left (frame + 1) (set_used p frame used)
        (set_used-IsValid p v frame used))
  | inr stop ↦ rw stop v
]

pub frame_count-set_range :
    (used : Bool) (left frame : ℕ) (p : Pmm)
    → (set_range used left frame p).frame_count ≡ p.frame_count
unfolding set_range
frame_count-set_range used zero frame p = refl
frame_count-set_range used (suc left) frame p = ground (
  arith,
  frame_count-set_range used left (frame + 1) (set_used p frame used),
  frame_count-set_used p frame used,
)

-- Exactly the frames of the range that exist are set.
pub is_used-set_range :
    (used : Bool) (left frame : ℕ) (p : Pmm)
    → IsValid p
    → (j : ℕ) → j < p.frame_count
    → is_used (set_range used left frame p) j
      ≡ (if leb frame j && ltb j (frame + left) then used else is_used p j)
unfolding set_range
is_used-set_range used zero frame p v j hj = ground arith
is_used-set_range used (suc left) frame p v j hj = elim (dec_lt frame p.frame_count) [
  | yes inside ↦ rw (lt→ltb _ _ inside) (
      ground (
        arith,
        is_used-set_range used left (frame + 1) (set_used p frame used)
            (set_used-IsValid p v frame used) j,
        is_used-set_used p v frame inside used j,
        frame_count-set_used p frame used,
      ))
  | no outside ↦ ground arith
]
