-- ===== src/Kheap/Machine.antt =====
-- What kernel/mm/kheap.c stands on: mapped pages, and the memory of the block headers.
use simply_os.Base.{ℕ, ◌+◌, ◌<◌, ◌≤◌, ◌%◌, Bool, true, false, ◌≡◌, ◌≢◌, ◌==◌, if◌then◌else◌}

abbrev pub page_size : ℕ
page_size = 4096

-- `pmm_alloc_frame`, `paging_map_page` and `pmm_free_frame` over the state that they share, and
-- whether an address can be accessed. `Owned s f` says that the frame at `f` was handed out and is
-- neither a page table nor given back.
pub record PageSource : Type 1 where
  pub State : Type 0
  pub alloc : State → ℕ × State
  pub map_page : State → ℕ → ℕ → ℕ → Bool × State
  pub free : State → ℕ → State
  pub mapped : State → ℕ → Bool
  pub IsSound : State → Type 0
  pub Owned : State → ℕ → Type 0
  pub alloc-IsSound : (s : State) → IsSound s → IsSound (alloc s).1
  pub alloc-mapped : (s : State) (x : ℕ) → IsSound s → mapped (alloc s).1 x ≡ mapped s x
  pub alloc-Owned : (s : State) → IsSound s → (alloc s).0 ≢ 0 → Owned (alloc s).1 (alloc s).0
  pub map_page-IsSound :
      (s : State) (v f flags : ℕ)
      → IsSound s
      → Owned s f
      → flags < page_size
      → v < 0xFFC00000
      → IsSound (map_page s v f flags).1
  pub map_page-keeps :
      (s : State) (v f flags x : ℕ)
      → IsSound s
      → Owned s f
      → flags < page_size
      → v < 0xFFC00000
      → x < 0xFFC00000
      → mapped s x ≡ true
      → mapped (map_page s v f flags).1 x ≡ true
  pub map_page-maps :
      (s : State) (v f flags x : ℕ)
      → IsSound s
      → Owned s f
      → flags < page_size
      → v < 0xFFC00000
      → v % page_size ≡ 0
      → (map_page s v f flags).0 ≡ true
      → v ≤ x
      → x < v + page_size
      → mapped (map_page s v f flags).1 x ≡ true
  pub map_page-Owned :
      (s : State) (v f flags : ℕ)
      → IsSound s
      → Owned s f
      → flags < page_size
      → v < 0xFFC00000
      → (map_page s v f flags).0 ≡ false
      → Owned (map_page s v f flags).1 f
  pub free-IsSound : (s : State) (f : ℕ) → IsSound s → Owned s f → IsSound (free s f)
  pub free-mapped : (s : State) (f x : ℕ) → IsSound s → Owned s f → mapped (free s f) x ≡ mapped s x

-- `kheap_block_t`, 16 bytes on i386. A pointer is an address, 0 for NULL.
pub record Block : Type 0 where
  pub size : ℕ
  pub is_free : Bool
  pub next : ℕ
  pub prev : ℕ

abbrev pub Memory : Type 0
Memory = ℕ → Block

unfoldable pub write : Memory → ℕ → Block → Memory
write mem a b x = if x == a then b else mem x

-- `kheap_start`, `kheap_end`, `kheap_first`, the headers, and the rest of the memory system.
pub record Heap (S : Type 0) : Type 0 where
  pub start : ℕ
  pub end : ℕ
  pub first : ℕ
  pub mem : Memory
  pub pages : S

-- `fault` is an access to a header that is not mapped, `hang` a loop that does not end.
pub data Run (S A : Type 0) : Type 0 where
  done : A → Heap S → Run S A
  fault : Run S A
  hang : Run S A

module _ {S A B : Type 0} where
  abbrev pub and_then : Run S A → (A → Heap S → Run S B) → Run S B
  and_then (done a h) k = k a h
  and_then fault k = fault
  and_then hang k = hang

  infixl 5 ◌>>=◌ ◌>>◌
  abbrev pub ◌>>=◌ : (Heap S → Run S A) → (A → Heap S → Run S B) → Heap S → Run S B
  ◌>>=◌ m f h = and_then (m h) f

  abbrev pub ◌>>◌ : (Heap S → Run S A) → (Heap S → Run S B) → Heap S → Run S B
  ◌>>◌ m k = m >>= λ _. k

-- The run ends, without a fault, in a result and a state that satisfy `P`.
abbrev pub Returns : {S A : Type 0} → (A → Heap S → Type 0) → Run S A → Type 0
Returns P (done a h) = P a h
Returns P fault = ⊥
Returns P hang = ⊥
