-- ===== src/Pmm/Exclusive.antt =====
-- Clients of the allocator: who holds which frames after any sequence of calls.
use simply_os.Base.{
  ℕ, ◌*◌, ◌/◌, ◌%◌, ◌<◌, true, false, ◌≡◌, ◌≢◌, ap, arith, List, [], ◌∷◌, All, Distinct, erase, Mem,
  All-erase, All-erase, Distinct-erase, ne-erase, All-mono, All-mem, All-both,
}
use simply_os.Pmm.{Pmm, page_size, set_used, alloc_frame, free_frame}
use simply_os.Pmm.Valid.{IsValid, is_used, is_used-set_used, set_used-IsValid, frame_count-set_used}
use simply_os.Pmm.Alloc.{
  Allocates, exhausted, found, alloc_frame-Allocates, free_frame-IsValid, is_used-free_frame,
  frame_count-free_frame,
}

-- The allocator with the addresses that were handed out and not given back.
pub record Client : Type 0 where
  pub pmm : Pmm
  pub held : List ℕ

pub data Step (c d : Client) : Type 0 where
  alloc :
      (alloc_frame c.pmm).0 ≢ 0
      → d ≡ record { pmm = (alloc_frame c.pmm).1; held = (alloc_frame c.pmm).0 ∷ c.held }
      → Step c d
  refuse : (alloc_frame c.pmm).0 ≡ 0 → d ≡ record c { pmm = (alloc_frame c.pmm).1 } → Step c d
  release :
      (a : ℕ)
      → Mem a c.held
      → d ≡ record { pmm = free_frame c.pmm a; held = erase a c.held }
      → Step c d

pub data Reach (c : Client) : Client → Type 0 where
  here : Reach c c
  next : {d e : Client} → Reach c d → Step d e → Reach c e

-- A frame that somebody holds.
abbrev pub IsHeld : Pmm → ℕ → Type 0
IsHeld p a =
    (0 < a)
    × (a % page_size ≡ 0)
    × (a / page_size < p.frame_count)
    × (is_used p (a / page_size) ≡ true)

pub record IsExclusive (c : Client) : Type 0 where
  pub valid : IsValid c.pmm
  pub held_ok : All (IsHeld c.pmm) c.held
  pub distinct : Distinct c.held

IsHeld-set_used :
    (p : Pmm)
    → IsValid p
    → (frame : ℕ) → frame < p.frame_count
    → (a : ℕ) → IsHeld p a
    → IsHeld (set_used p frame true) a
IsHeld-set_used p v frame inside a h = ground (
  arith,
  is_used-set_used p v frame inside true (a / page_size),
  frame_count-set_used p frame true,
)

IsHeld-free_frame :
    (p : Pmm) → IsValid p → (a b : ℕ) → IsHeld p a → IsHeld p b → a ≢ b → IsHeld (free_frame p a) b
IsHeld-free_frame p v a b ha hb ne =
    ground (arith, is_used-free_frame p a (b / page_size) v, frame_count-free_frame p a)

-- A frame that was free is none of those held.
ne-held : (p : Pmm) (frame a : ℕ) → is_used p frame ≡ false → IsHeld p a → frame * page_size ≢ a
ne-held p frame a free h = λ e. ground (arith, ap (λ (t : ℕ). t / page_size) e)

alloc-IsExclusive :
    (c : Client)
    → IsExclusive c
    → (r : ℕ × Pmm) → Allocates c.pmm 1 r
    → r.0 ≢ 0
    → IsExclusive (record { pmm = r.1; held = r.0 ∷ c.held })
alloc-IsExclusive c x r (exhausted e all) ne = absurd (ne (ap (λ (t : ℕ × Pmm). t.0) e))
alloc-IsExclusive c x r (found frame lo hi free all e) ne =
    let p = set_used c.pmm frame true in
    let new : IsHeld p (frame * page_size) = ground (
      arith,
      is_used-set_used c.pmm x.valid frame hi true frame,
      frame_count-set_used c.pmm frame true,
    ) in
    rw e (record {
      valid = set_used-IsValid c.pmm x.valid frame true;
      held_ok = (
        new,
        All-mono (IsHeld c.pmm) (IsHeld p) c.held (IsHeld-set_used c.pmm x.valid frame hi)
            x.held_ok,
      );
      distinct = (
        All-mono (IsHeld c.pmm) _ c.held (λ a. ne-held c.pmm frame a free) x.held_ok,
        x.distinct,
      );
    })

free-IsExclusive :
    (c : Client)
    → IsExclusive c
    → (a : ℕ) → Mem a c.held
    → IsExclusive (record { pmm = free_frame c.pmm a; held = erase a c.held })
free-IsExclusive c x a m =
    let ok = All-mem (IsHeld c.pmm) c.held x.held_ok m in
    record {
      valid = free_frame-IsValid c.pmm a x.valid;
      held_ok =
          All-mono _ (IsHeld (free_frame c.pmm a)) (erase a c.held)
            (λ b h. IsHeld-free_frame c.pmm x.valid a b ok h.0 h.1)
            (All-both (IsHeld c.pmm) _ (erase a c.held)
              (All-erase (IsHeld c.pmm) a c.held x.held_ok) (ne-erase a c.held x.distinct));
      distinct = Distinct-erase a c.held x.distinct;
    }

refuse-IsExclusive :
    (c : Client)
    → IsExclusive c
    → (r : ℕ × Pmm) → Allocates c.pmm 1 r
    → r.0 ≡ 0
    → IsExclusive (record c { pmm = r.1 })
refuse-IsExclusive c x r (exhausted e all) z = rw e x
refuse-IsExclusive c x r (found frame lo hi free all e) z =
    absurd (omega (arith, z, ap (λ (t : ℕ × Pmm). t.0) e))

Step-IsExclusive : {c d : Client} → Step c d → IsExclusive c → IsExclusive d
Step-IsExclusive {c} (alloc ne e) x =
    rw e (alloc-IsExclusive c x (alloc_frame c.pmm) (alloc_frame-Allocates c.pmm x.valid) ne)
Step-IsExclusive {c} (refuse z e) x =
    rw e (refuse-IsExclusive c x (alloc_frame c.pmm) (alloc_frame-Allocates c.pmm x.valid) z)
Step-IsExclusive {c} (release a m e) x = rw e (free-IsExclusive c x a m)

-- Through any sequence of allocations and of frees of what is held, starting on a valid state
-- where nobody holds a frame, the state stays valid, and the addresses held are distinct,
-- page-aligned, not NULL, of frames that exist, and marked as in use.
pub Reach-IsExclusive :
    (p : Pmm) {c : Client} → IsValid p → Reach (record { pmm = p; held = [] }) c → IsExclusive c
Reach-IsExclusive p v here = record { valid = v; held_ok = tt; distinct = tt }
Reach-IsExclusive p v (next r s) = Step-IsExclusive s (Reach-IsExclusive p v r)
