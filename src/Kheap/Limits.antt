-- ===== src/Kheap/Limits.antt =====
-- Sizes near 2^32, where the sums of `kmalloc` and `kheap_extend` wrap.
use simply_os.Base.{
  ℕ, ◌∙◌, ap, sym, ◌+◌, ◌-◌, ◌*◌, ◌/◌, ◌^◌, ◌≤◌, ◌<◌, false, ◌≡◌, refl, arith, ◌==◌, u32, sub32,
  ltb, leb,
}
use simply_os.Kheap.Machine.{PageSource, Heap, fault, page_size}
use simply_os.Kheap.{
  kmalloc, kmalloc_loop, extend, align, needed_size, store, map_pages, max_bytes, header_size,
}
use simply_os.Kheap.Malloc.{align-lem}

needed_size-wraps : (size : ℕ) → 2 ^ 32 ≤ size + 23 → size < 2 ^ 32 → needed_size size ≡ 24
unfolding needed_size
needed_size-wraps size near small =
    let a = align-lem (u32 (size + header_size)) in ground (arith, a)

eight : needed_size 8 ≡ 24
unfolding needed_size align
eight = refl

module _ (P : PageSource) where
  open P use {State, mapped}

  kmalloc-some :
      (size : ℕ) (h : Heap State)
      → 0 < size
      → kmalloc P size h ≡ kmalloc_loop P (needed_size size) 3 h
  unfolding kmalloc
  kmalloc-some size h pos = let some_size : (size == 0) ≡ false = ground arith in rw some_size

  -- A request to kmalloc for one of the 23 largest sizes is served as one for 8 bytes.
  pub kmalloc-wraps :
      (size : ℕ) (h : Heap State)
      → 2 ^ 32 ≤ size + 23
      → size < 2 ^ 32
      → kmalloc P size h ≡ kmalloc P 8 h
  kmalloc-wraps size h near small =
      kmalloc-some size h (omega arith)
      ∙ ap (λ n. kmalloc_loop P n 3 h) (needed_size-wraps size near small ∙ sym eight)
      ∙ sym (kmalloc-some 8 h (omega arith))

  -- Asked for a number of bytes within a page of 2^32, kheap_extend of a heap that is not full
  -- maps no page, and faults on the header of the new block if the first address behind the heap
  -- is not mapped.
  pub extend-faults :
      (min_bytes : ℕ) (h : Heap State)
      → 2 ^ 32 < min_bytes + page_size
      → min_bytes < 2 ^ 32
      → sub32 h.end h.start < max_bytes
      → mapped h.pages h.end ≡ false
      → extend P min_bytes h ≡ fault
  unfolding extend map_pages store
  extend-faults min_bytes h near small room bad =
      let not_full : leb max_bytes (sub32 h.end h.start) ≡ false = ground arith in
      let no_pages : u32 (min_bytes + page_size - 1) / page_size ≡ 0 = omega arith in
      let large : ltb min_bytes (4 * page_size) ≡ false = ground arith in
      rw (not_full, large, no_pages, bad) refl
