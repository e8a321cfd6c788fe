-- ===== src/Kernel/Frames.antt =====
-- What the test of the frames leaves.
use simply_os.Base.{
  ℕ, ◌*◌, ◌/◌, ◌%◌, ◌≤◌, ◌<◌, ◌≡◌, ◌≢◌, refl, ◌∙◌, sym, ap, arith, true, false, ◌==◌, ltb,
  if◌then◌else◌, List, Bool-cases, inl, inr,
}
use simply_os.Base.Text.{codes}
use simply_os.Libc.Print.Render.{render}
use simply_os.Terminal.{Terminal, write}
use simply_os.Console.{Outcome, goes}
use simply_os.Console.Say.{say-fixed}
use simply_os.Pmm.{Pmm, page_size, alloc_frame, free_frame, set_used}
use simply_os.Pmm.Valid.{IsValid, is_used, is_used-set_used, set_used-IsValid, frame_count-set_used}
use simply_os.Pmm.Count.{count, count-congr}
use simply_os.Pmm.Alloc.{
  Allocates, exhausted, found, alloc_frame-Allocates, free_frame-IsValid, is_used-free_frame,
  frame_count-free_frame,
}
use simply_os.Kernel.{pmm_self_test}

-- The same frames in use, and the same counters.
pub record IsAlike (p q : Pmm) : Type 0 where
  pub valid : IsValid q
  pub frames : q.frame_count ≡ p.frame_count
  pub used : q.used_count ≡ p.used_count
  pub marks : (j : ℕ) → is_used q j ≡ is_used p j

abbrev pub passed_text : List ℕ
passed_text = codes "PMM self-test: ok\n"

abbrev pub failed_text : List ℕ
failed_text = codes "PMM self-test: alloc failed\n"

-- A frame that the allocator can hand out.
pub record IsAvailable (p : Pmm) (frame : ℕ) : Type 0 where
  pub some_frame : 1 ≤ frame
  pub inside : frame < p.frame_count
  pub unused : is_used p frame ≡ false

-- The outcomes: two frames were there and are given back; no frame was there; or one frame was
-- there, which stays in use although nobody has it. No two of them are possible for one state.
pub data Tests (p : Pmm) (t : Terminal) : Outcome (Pmm × Terminal) → Type 0 where
  passed :
      (f g : ℕ) (q : Pmm)
      → IsAvailable p f
      → IsAvailable p g
      → f ≢ g
      → IsAlike p q
      → Tests p t (goes (q, write passed_text t))
  empty :
      ((j : ℕ) → 1 ≤ j → j < p.frame_count → is_used p j ≡ true)
      → Tests p t (goes (p, write failed_text t))
  leaks :
      (frame : ℕ)
      → IsAvailable p frame
      → ((j : ℕ) → 1 ≤ j → j < p.frame_count → j ≢ frame → is_used p j ≡ true)
      → Tests p t (goes (set_used p frame true, write failed_text t))

-- Freeing a frame by its address.
freed :
    (p : Pmm) (frame j : ℕ)
    → IsValid p
    → 0 < frame
    → frame < p.frame_count
    → is_used (free_frame p (frame * page_size)) j ≡ (if j == frame then false else is_used p j)
freed p frame j v some_frame inside =
    let back : frame * page_size / page_size ≡ frame = omega arith in
    let some_address : (frame * page_size == 0) ≡ false = ground arith in
    let aligned : (frame * page_size % page_size == 0) ≡ true = ground arith in
    let there : ltb frame p.frame_count ≡ true = ground arith in
    is_used-free_frame p (frame * page_size) j v ∙ rw (back, some_address, aligned, there) refl

-- Both frames are taken and given back.
module _ (p : Pmm) (v : IsValid p) (f g : ℕ) (f_low : 1 ≤ f) (f_high : f < p.frame_count)
    (g_low : 1 ≤ g) (g_high : g < p.frame_count) (f_free : is_used p f ≡ false)
    (g_free : is_used (set_used p f true) g ≡ false) where
  abbrev taken : Pmm
  taken = set_used (set_used p f true) g true

  abbrev returned : Pmm
  returned = free_frame (free_frame taken (f * page_size)) (g * page_size)

  taken-IsValid : IsValid taken
  taken-IsValid = set_used-IsValid (set_used p f true) (set_used-IsValid p v f true) g true

  once-IsValid : IsValid (free_frame taken (f * page_size))
  once-IsValid = free_frame-IsValid taken (f * page_size) taken-IsValid

  taken_count : taken.frame_count ≡ p.frame_count
  taken_count = frame_count-set_used (set_used p f true) g true ∙ frame_count-set_used p f true

  returned_count : returned.frame_count ≡ p.frame_count
  returned_count =
      frame_count-free_frame (free_frame taken (f * page_size)) (g * page_size)
      ∙ frame_count-free_frame taken (f * page_size)
      ∙ taken_count

  g_clear : is_used p g ≡ false
  g_clear = ground (arith, is_used-set_used p v f f_high true g, g_free)

  returned_marks : (j : ℕ) → is_used returned j ≡ is_used p j
  returned_marks j =
      let v1 = set_used-IsValid p v f true in
      let inside : g < (set_used p f true).frame_count =
        rw (frame_count-set_used p f true) g_high in
      let last =
        freed (free_frame taken (f * page_size)) g j once-IsValid (omega arith)
          (rw (frame_count-free_frame taken (f * page_size), taken_count) g_high) in
      let first = freed taken f j taken-IsValid (omega arith) (rw taken_count f_high) in
      let mark_g = is_used-set_used (set_used p f true) v1 g inside true j in
      let mark_f = is_used-set_used p v f f_high true j in
      last
      ∙ rw (first, mark_g, mark_f)
          (elim (Bool-cases (j == g)) [
            | inl e ↦ let at : j ≡ g = ground arith in rw (e, at) (sym g_clear)
            | inr e ↦ elim (Bool-cases (j == f)) [
              | inl d ↦ let at : j ≡ f = ground arith in rw (e, d, at) (sym f_free)
              | inr d ↦ rw (e, d) refl
            ]
          ])

  returned-IsAlike : IsAlike p returned
  returned-IsAlike =
      let valid =
        free_frame-IsValid (free_frame taken (f * page_size)) (g * page_size) once-IsValid in
      record {
        valid = valid;
        frames = returned_count;
        used =
            valid.counted
            ∙ count-congr (is_used returned) (is_used p) returned.frame_count
                (λ j h. returned_marks j)
            ∙ ap (count (is_used p)) returned_count
            ∙ sym v.counted;
        marks = returned_marks;
      }

-- After the first allocation.
second :
    (p : Pmm) (t : Terminal) (frame : ℕ) (r : ℕ × Pmm)
    → IsValid p
    → 1 ≤ frame
    → frame < p.frame_count
    → is_used p frame ≡ false
    → alloc_frame p ≡ (frame * page_size, set_used p frame true)
    → Allocates (set_used p frame true) 1 r
    → alloc_frame (set_used p frame true) ≡ r
    → Tests p t (pmm_self_test p t)
unfolding pmm_self_test render
second p t frame r v low high free one (exhausted e all) two =
    let some_address : (frame * page_size == 0) ≡ false = ground arith in
    let others : (j : ℕ) → 1 ≤ j → j < p.frame_count → j ≢ frame → is_used p j ≡ true = λ j h k ne.
      ground (
        arith,
        is_used-set_used p v frame high true j,
        all j h (rw (frame_count-set_used p frame true) k),
      ) in
    rw (pmm_self_test, one, two ∙ e, some_address, say-fixed failed_text t refl refl refl)
      (leaks frame (record { some_frame = low; inside = high; unused = free }) others)
second p t frame r v low high free one (found g g_low g_high g_free before e) two =
    let some_address : (frame * page_size == 0) ≡ false = ground arith in
    let other_address : (g * page_size == 0) ≡ false = ground arith in
    let g_in : g < p.frame_count = rw (← frame_count-set_used p frame true) g_high in
    let ne : g ≢ frame = λ same. ground (arith, is_used-set_used p v frame high true g, g_free) in
    let apart : (frame * page_size == g * page_size) ≡ false = ground arith in
    rw
      (
        pmm_self_test,
        one,
        two ∙ e,
        some_address,
        other_address,
        apart,
        say-fixed passed_text t refl refl refl,
      )
      (passed frame g _ (record { some_frame = low; inside = high; unused = free })
        (record {
          some_frame = g_low;
          inside = g_in;
          unused = g_clear p v frame g low high g_low g_in free g_free;
        })
        (λ same. ne (sym same)) (returned-IsAlike p v frame g low high g_low g_in free g_free))

first :
    (p : Pmm) (t : Terminal) (r : ℕ × Pmm)
    → IsValid p
    → Allocates p 1 r
    → alloc_frame p ≡ r
    → Tests p t (pmm_self_test p t)
unfolding pmm_self_test render
first p t r v (exhausted e all) same =
    rw (pmm_self_test, same ∙ e, same ∙ e, say-fixed failed_text t refl refl refl) (empty all)
first p t r v (found frame low high free before e) same =
    second p t frame _ v low high free (same ∙ e)
      (alloc_frame-Allocates (set_used p frame true) (set_used-IsValid p v frame true)) refl

-- pmm_self_test on a valid state: it reports success only if two different frames from 1 on are
-- free, and then the same frames are in use afterwards, with the same counters; it reports the
-- failure where every frame from 1 on is in use, and changes nothing, and where exactly one is
-- free, and that frame then stays in use.
pub pmm_self_test-Tests : (p : Pmm) (t : Terminal) → IsValid p → Tests p t (pmm_self_test p t)
pmm_self_test-Tests p t v = first p t (alloc_frame p) v (alloc_frame-Allocates p v) refl
