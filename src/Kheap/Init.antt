-- ===== src/Kheap/Init.antt =====
-- `kheap_init`.
use simply_os.Base.{Bool, true, [], ◌∷◌, refl, ◌⊎◌, inl, inr, arith}
use simply_os.Kheap.Machine.{PageSource, Heap, Run, Returns, and_then, page_size}
use simply_os.Kheap.{pure, extend, init, kheap_start}
use simply_os.Kheap.Chunks.{chunk, grow}
use simply_os.Kheap.State.{IsHeap, Extends, refused, extended, extend-Extends}

module _ (P : PageSource) where
  open P use {State}

  abbrev pub empty : Heap State → Heap State
  empty h = record h { start = kheap_start; end = kheap_start; first = 0 }

  pub empty-IsHeap : (h : Heap State) → P.IsSound h.pages → IsHeap P (empty h) []
  empty-IsHeap h sound = record {
    sound = sound;
    at_start = refl;
    bound = omega arith;
    aligned = refl;
    zone = record {
      all_mapped = λ x l r. absurd (omega arith);
      pos = omega arith;
      small = omega arith;
    };
    first = refl;
    chain = refl;
    blocks = tt;
    coalesced = tt;
  }

  pub IsFresh : Heap State → Type 0
  IsFresh h = IsHeap P h [] ⊎ IsHeap P h (chunk 16384 true ∷ [])

  init-Extends :
      (h : Heap State) (run : Run State Bool)
      → Extends P h [] page_size run
      → Returns (λ _. IsFresh) (and_then run (λ _. pure P tt))
  unfolding IsFresh grow
  init-Extends h run (refused s e v) = rw e (inl v)
  init-Extends h run (extended h' e v enough) = rw e (inr v)

  -- kheap_init over sound pages ends without a fault and leaves a well-formed heap without blocks
  -- or with one free block of four pages.
  pub init-IsFresh : (h : Heap State) → P.IsSound h.pages → Returns (λ _. IsFresh) (init P h)
  unfolding init
  init-IsFresh h sound =
      init-Extends (empty h) (extend P page_size (empty h))
        (extend-Extends P (empty h) [] page_size (empty-IsHeap h sound) (omega arith))
