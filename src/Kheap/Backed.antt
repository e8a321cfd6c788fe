-- ===== src/Kheap/Backed.antt =====
-- The memory system that kernel_main puts together: kernel/mm/kheap.c over kernel/mm/paging.c and
-- kernel/mm/pmm.c.
mod Tests
use simply_os.Base.{
  ℕ, ◌+◌, ◌≤◌, ◌<◌, ◌≡◌, refl, sym, arith, Bool, true, none, some, Option, [], List, Mem, All-mem,
}
use simply_os.Paging.{Machine, translate}
use simply_os.Paging.Space.{IsSpace}
use simply_os.Paging.Space.Source.{pages, is_some}
use simply_os.Kheap.Machine.{Heap}
use simply_os.Kheap.{kheap_start}
use simply_os.Kheap.Chunks.{Chunk}
use simply_os.Kheap.Chunks.Release.{UsedAt-end}
use simply_os.Kheap.Chain.{Chain-end}
use simply_os.Kheap.State.{IsHeap}
use simply_os.Kheap.Client.{Client, Reach, IsHeld, Reach-IsClient}

is_some-lem : (o : Option ℕ) → is_some o ≡ true → (a : ℕ) × (o ≡ some a)
is_some-lem none e = ground (arith, e)
is_some-lem (some a) e = (a, refl)

-- Over the page tables and the frames of the machine, through any sequence of calls of kmalloc,
-- with sizes that are not 0 and not within 4112 of 2^32, and of kfree on what is held, starting on
-- a well-formed heap of which nothing is held, the tables and frames stay in order and the
-- processor translates every byte of what is held.
pub held-translated :
    (h : Heap Machine) (cs : List Chunk) {d : Client pages}
    → IsHeap pages h cs
    → Reach pages (record { heap = h; held = []; size_of = λ x. 0 }) d
    → (ptr x : ℕ) → Mem ptr d.held
    → ptr ≤ x
    → x < ptr + d.size_of ptr
    → IsSpace d.heap.pages × (a : ℕ) × (translate d.heap.pages x ≡ some a)
held-translated h cs {d} v r ptr x m low high =
    let c =
      Reach-IsClient pages (record { chunks = cs; holds = v; held_ok = tt; distinct = tt }) r in
    let (o, n, at, large, used) = All-mem (IsHeld pages c.chunks d.size_of) d.held c.held_ok m in
    let end = Chain-end d.heap.mem 0 kheap_start c.chunks c.holds.chain in
    let inside = UsedAt-end o n c.chunks used in
    let there =
      c.holds.zone.all_mapped x (omega (arith, at, low))
        (omega (arith, at, large, high, inside, end)) in
    let (a, to) = is_some-lem (translate d.heap.pages x) there in (c.holds.sound, a, to)
