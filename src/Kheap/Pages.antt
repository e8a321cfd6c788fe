-- ===== src/Kheap/Pages.antt =====
-- The loop of `kheap_extend` that maps the new pages.
use simply_os.Base.{
  ℕ, zero, suc, ◌+◌, ◌*◌, ◌%◌, ◌≤◌, ◌<◌, Bool, true, false, Option, none, some, ◌≡◌, ◌≢◌, refl, inl,
  inr, arith, ◌==◌, if◌then◌else◌, u32, sub32, ltb, Bool-cases,
}
use native.Mathlib.Decide.{dec_le}
use simply_os.Kheap.Machine.{PageSource, Heap, Run, done, and_then, page_size}
use simply_os.Kheap.{pure, map_one, map_pages, kheap_start, max_bytes, flag_write}
use simply_os.Kheap.Chain.{Zone}

abbrev pub top : ℕ
top = 0xC3000000

room_test :
    (at : ℕ)
    → kheap_start ≤ at
    → at + page_size ≤ top
    → ltb max_bytes (sub32 (u32 (at + page_size)) kheap_start) ≡ false
room_test at low room = ground arith

full_test :
    (at : ℕ)
    → kheap_start ≤ at
    → at ≤ top
    → top < at + page_size
    → ltb max_bytes (sub32 (u32 (at + page_size)) kheap_start) ≡ true
full_test at low high full = ground arith

module _ (P : PageSource) where
  open P use {State, alloc, map_page, free, mapped, IsSound, Owned}

  -- What could be accessed still can, below the window of the page tables.
  abbrev pub Keeps : State → State → Type 0
  Keeps s t = (x : ℕ) → x < 0xFFC00000 → mapped s x ≡ true → mapped t x ≡ true

  pub Zone-Keeps : {s t : State} {lo hi : ℕ} → Keeps s t → Zone P s lo hi → Zone P t lo hi
  Zone-Keeps k z = record {
    all_mapped = λ x l h. k x (omega (arith, z.small)) (z.all_mapped x l h);
    pos = z.pos;
    small = z.small;
  }

  -- The two outcomes of one round at `at`: nothing gained, or the page at `at` mapped.
  pub data MapsOne (h : Heap State) (at : ℕ) (run : Run State Bool) : Type 0 where
    failed :
        (s : State)
        → run ≡ done false (record h { pages = s })
        → IsSound s
        → Keeps h.pages s
        → MapsOne h at run
    mapped_page :
        (s : State)
        → run ≡ done true (record h { pages = s })
        → IsSound s
        → Keeps h.pages s
        → ((x : ℕ) → at ≤ x → x < at + page_size → mapped s x ≡ true)
        → at + page_size ≤ top
        → MapsOne h at run

  module _ (h : Heap State) (at : ℕ) (sound : IsSound h.pages) (start : h.start ≡ kheap_start)
      (low : kheap_start ≤ at) (high : at ≤ top) (aligned : at % page_size ≡ 0) where
    s1 : State
    s1 = (alloc h.pages).1

    frame : ℕ
    frame = (alloc h.pages).0

    s2 : Bool × State
    s2 = map_page s1 at frame flag_write

    s1-Keeps : Keeps h.pages s1
    unfolding s1
    s1-Keeps x b m = rw (P.alloc-mapped h.pages x sound) m

    s1-sound : IsSound s1
    unfolding s1
    s1-sound = P.alloc-IsSound h.pages sound

    module _ (got : frame ≢ 0) where
      owned : Owned s1 frame
      unfolding s1 frame
      owned = P.alloc-Owned h.pages sound got

      s2-sound : IsSound s2.1
      unfolding s2
      s2-sound =
          P.map_page-IsSound s1 at frame flag_write s1-sound owned (omega arith) (omega arith)

      s2-Keeps : Keeps h.pages s2.1
      unfolding s2
      s2-Keeps x b m =
          P.map_page-keeps s1 at frame flag_write x s1-sound owned (omega arith) (omega arith) b
            (s1-Keeps x b m)

      s2-maps : s2.0 ≡ true → (x : ℕ) → at ≤ x → x < at + page_size → mapped s2.1 x ≡ true
      unfolding s2
      s2-maps ok x l r =
          P.map_page-maps s1 at frame flag_write x s1-sound owned (omega arith) (omega arith)
            aligned ok l r

      s2-owned : s2.0 ≡ false → Owned s2.1 frame
      unfolding s2
      s2-owned bad =
          P.map_page-Owned s1 at frame flag_write s1-sound owned (omega arith) (omega arith) bad

    map_one-parts :
        at + page_size ≤ top
        → map_one P at h ≡ (
            if frame == 0
            then done false (record h { pages = s1 })
            else if s2.0
            then done true (record h { pages = s2.1 })
            else done false (record h { pages = free s2.1 frame }))
    unfolding map_one s1 frame s2
    map_one-parts room = rw (start, room_test at low room)

    map_one-room : at + page_size ≤ top → MapsOne h at (map_one P at h)
    map_one-room room = elim (Bool-cases (frame == 0)) [
      | inl out ↦ rw (map_one-parts room, out) (failed s1 refl s1-sound s1-Keeps)
      | inr some_frame ↦
          let got : frame ≢ 0 = ground arith in
          elim (Bool-cases s2.0) [
            | inl ok ↦
                rw (map_one-parts room, some_frame, ok)
                  (mapped_page s2.1 refl (s2-sound got) (s2-Keeps got) (s2-maps got ok) room)
            | inr bad ↦
                rw (map_one-parts room, some_frame, bad)
                  (failed (free s2.1 frame) refl
                    (P.free-IsSound s2.1 frame (s2-sound got) (s2-owned got bad))
                    (λ x b m.
                      rw (P.free-mapped s2.1 frame x (s2-sound got) (s2-owned got bad))
                        (s2-Keeps got x b m)))
          ]
    ]

    map_one-MapsOne : MapsOne h at (map_one P at h)
    unfolding map_one
    map_one-MapsOne = elim (dec_le (at + page_size) top) [
      | yes room ↦ map_one-room room
      | no full ↦
          rw (start, full_test at low high (omega arith)) (failed h.pages refl sound (λ x b m. m))
    ]

  -- The outcomes of the loop: `return false`, or all the pages mapped.
  pub data MapsPages (h : Heap State) (at left : ℕ) (run : Run State (Option ℕ)) : Type 0 where
    failed :
        (s : State)
        → run ≡ done none (record h { pages = s })
        → IsSound s
        → Keeps h.pages s
        → MapsPages h at left run
    mapped_pages :
        (s : State)
        → run ≡ done (some (at + left * page_size)) (record h { pages = s })
        → IsSound s
        → Keeps h.pages s
        → ((x : ℕ) → at ≤ x → x < at + left * page_size → mapped s x ≡ true)
        → at + left * page_size ≤ top
        → MapsPages h at left run

  map_pages-suc :
      (left at : ℕ) (h : Heap State)
      → map_pages P (suc left) at h
        ≡ and_then
            (map_one P at h)
            (λ ok. if ok then map_pages P left (u32 (at + page_size)) else pure P none)
  unfolding map_pages
  map_pages-suc left at h = refl

  MapsPages-suc :
      (left at : ℕ) (h : Heap State) (run : Run State Bool)
      → MapsOne h at run
      → ((s : State)
          → IsSound s
          → at + page_size ≤ top
          → MapsPages
              (record h { pages = s })
              (at + page_size)
              left
              (map_pages P left (at + page_size) (record h { pages = s })))
      → MapsPages h at
          (suc left)
          (and_then run (λ ok. if ok then map_pages P left (u32 (at + page_size)) else pure P none))
  MapsPages-suc left at h run (failed s e sound keeps) rest = rw e (failed s refl sound keeps)
  MapsPages-suc left at h run (mapped_page s e sound keeps maps room) rest =
      let near : u32 (at + page_size) ≡ at + page_size = omega arith in
      rw (e, near) (extend_by (rest s sound room))
    where
      extend_by :
          {run : Run State (Option ℕ)}
          → MapsPages (record h { pages = s }) (at + page_size) left run
          → MapsPages h at (suc left) run
      extend_by (failed t e' sound' keeps') = failed t e' sound' (λ x b m. keeps' x b (keeps x b m))
      extend_by (mapped_pages t e' sound' keeps' maps' room') =
          let sum : at + page_size + left * page_size ≡ at + suc left * page_size = omega arith in
          mapped_pages t (rw sum at e') sound' (λ x b m. keeps' x b (keeps x b m))
            (λ x l r. elim (dec_le (at + page_size) x) [
              | yes far ↦ maps' x far (omega arith)
              | no close ↦ keeps' x (omega arith) (maps x l (omega arith))
            ])
            (omega arith)

  pub map_pages-MapsPages :
      (left at : ℕ) (h : Heap State)
      → IsSound h.pages
      → h.start ≡ kheap_start
      → kheap_start ≤ at
      → at ≤ top
      → at % page_size ≡ 0
      → MapsPages h at left (map_pages P left at h)
  unfolding map_pages
  map_pages-MapsPages zero at h sound start low high aligned =
      let here : at + 0 * page_size ≡ at = omega arith in
      mapped_pages h.pages (rw here) sound (λ x b m. m) (λ x l r. absurd (omega arith))
        (omega arith)
  map_pages-MapsPages (suc left) at h sound start low high aligned = rw (map_pages-suc left at h) (
      MapsPages-suc left at h (map_one P at h) (map_one-MapsOne h at sound start low high aligned)
        λ s sound' room.
          map_pages-MapsPages left (at + page_size) (record h { pages = s }) sound' start
            (omega arith) room (omega arith))
