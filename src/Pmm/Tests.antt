-- ===== src/Pmm/Tests.antt =====
-- The allocator of frames on small states.
use simply_os.Base.{
  ℕ, ◌≡◌, ◌≢◌, refl, arith, [], ◌∷◌, replicate, length-replicate, get_or-replicate,
}
use simply_os.Pmm.{Pmm, alloc_from, alloc_frame, free_frame}
use simply_os.Pmm.Count.{count}
use simply_os.Pmm.Valid.{IsValid}
use simply_os.Pmm.Alloc.{Allocates, alloc_frame-Allocates, free_frame-alloc_frame}
use simply_os.Pmm.Exclusive.{Client, alloc, here, next, IsExclusive, Reach-IsExclusive}

-- Eight frames, none in use.
abbrev pub small : Pmm
small = record { bitmap = replicate 4096 0; frame_count = 8; used_count = 0 }

pub small-IsValid : IsValid small
unfolding count
small-IsValid = record {
  bitmap_size = length-replicate {A = ℕ} 4096 0;
  bytes = λ i. rw (get_or-replicate {A = ℕ} 4096 i 0) (omega arith);
  few = omega arith;
  counted = refl;
}

small-alloc : (alloc_frame small).0 ≡ 4096
unfolding alloc_frame alloc_from
small-alloc = refl

some_frame : (alloc_frame small).0 ≢ 0
some_frame e = omega (arith, small-alloc)

alloc_frame-Allocates_example : Allocates small 1 (alloc_frame small)
alloc_frame-Allocates_example = alloc_frame-Allocates small small-IsValid

free_frame-alloc_frame_example : free_frame (alloc_frame small).1 (alloc_frame small).0 ≡ small
free_frame-alloc_frame_example = free_frame-alloc_frame small small-IsValid some_frame

-- One allocation.
abbrev one_call : Client
one_call = record { pmm = (alloc_frame small).1; held = (alloc_frame small).0 ∷ [] }

Reach-IsExclusive_example : IsExclusive one_call
Reach-IsExclusive_example =
    Reach-IsExclusive small small-IsValid (next here (alloc some_frame refl))
