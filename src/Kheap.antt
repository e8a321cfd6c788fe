-- ===== src/Kheap.antt =====
-- kernel/mm/kheap.c, the allocator of the kernel: a doubly linked list of blocks in address order
-- over pages that are mapped as they are needed. Sums and differences wrap at 32 bits.
pub mod Machine
pub mod Chunks
pub mod Chain
pub mod Absorb
pub mod Split
pub mod Fit
pub mod Free
pub mod Release
pub mod Pages
pub mod Append
pub mod State
pub mod Malloc
pub mod Init
pub mod Whole
pub mod Backed
pub mod Client
pub mod Limits
mod Tests
use Machine.{
  PageSource, Block, Memory, write, Heap, Run, done, fault, hang, and_then, ◌>>=◌, ◌>>◌, page_size,
}
use simply_os.Base.{
  ℕ, zero, suc, ◌+◌, ◌-◌, ◌*◌, ◌/◌, ◌^◌, bit_and, Bool, true, false, not, ◌&&◌, Option, none, some,
  u32, sub32, ltb, leb, ◌==◌, if◌then◌else◌,
}

abbrev pub kheap_start : ℕ
kheap_start = 0xC2000000

abbrev pub max_bytes : ℕ
max_bytes = 16 * 1024 * 1024

abbrev pub header_size : ℕ
header_size = 16

abbrev pub min_block : ℕ
min_block = 24

abbrev pub grow_pages : ℕ
grow_pages = 4

abbrev pub flag_write : ℕ
flag_write = 2

-- `(n + KHEAP_ALIGN - 1) & ~(KHEAP_ALIGN - 1)`
pub align : ℕ → ℕ
align n = bit_and (u32 (n + 7)) (2 ^ 32 - 8)

-- The size of the block that `kmalloc` looks for.
pub needed_size : ℕ → ℕ
needed_size size =
    let needed = align (u32 (size + header_size)) in
    if ltb needed min_block then min_block else needed

-- A heap has fewer blocks than this, so a walk over its list takes fewer rounds.
pub max_blocks : ℕ
max_blocks = 2 ^ 20

module _ (P : PageSource) where
  open P use {State, alloc, map_page, free, mapped}

  abbrev pub Cmd : Type 0 → Type 0
  Cmd A = Heap State → Run State A

  abbrev pub pure : {A : Type 0} → A → Cmd A
  pure a h = done a h

  abbrev pub forever : {A : Type 0} → Cmd A
  forever h = hang

  abbrev pub get_first : Cmd ℕ
  get_first h = done h.first h

  -- The header's first and last byte have to be mapped.
  abbrev pub can_access : Heap State → ℕ → Bool
  can_access h a = mapped h.pages a && mapped h.pages (u32 (a + 15))

  pub load : ℕ → Cmd Block
  load a h = if can_access h a then done (h.mem a) h else fault

  pub store : ℕ → Block → Cmd (Unit {0})
  store a b h = if can_access h a then done tt (record h { mem = write h.mem a b }) else fault

  abbrev set_size : ℕ → ℕ → Cmd (Unit {0})
  set_size a n = do b ← load a; store a (record b { size = n })

  abbrev set_free : ℕ → Bool → Cmd (Unit {0})
  set_free a f = do b ← load a; store a (record b { is_free = f })

  abbrev set_next : ℕ → ℕ → Cmd (Unit {0})
  set_next a n = do b ← load a; store a (record b { next = n })

  abbrev set_prev : ℕ → ℕ → Cmd (Unit {0})
  set_prev a p = do b ← load a; store a (record b { prev = p })

  -- The body of the loop that maps the new pages; `false` is its `return false`.
  pub map_one : ℕ → Cmd Bool
  map_one map_at h =
      if ltb max_bytes (sub32 (u32 (map_at + page_size)) h.start)
      then done false h
      else let (frame, s1) = alloc h.pages in
        let (ok, s2) = map_page s1 map_at frame flag_write in
        if frame == 0
        then done false (record h { pages = s1 })
        else if ok
        then done true (record h { pages = s2 })
        else done false (record h { pages = free s2 frame })

  -- The loop, with the pages that are left; the result is the last `map_at`.
  pub map_pages : ℕ → ℕ → Cmd (Option ℕ)
  map_pages zero map_at = pure (some map_at)
  map_pages (suc left) map_at = do
    ok ← map_one map_at
    let rest = map_pages left (u32 (map_at + page_size))
    if ok then rest else pure none

  -- `while (last->next != NULL) last = last->next;`
  pub walk_last : ℕ → ℕ → Cmd ℕ
  walk_last zero last = forever
  walk_last (suc fuel) last = do
    b ← load last
    let rest = walk_last fuel b.next
    if b.next == 0 then pure last else rest

  -- The new block behind the last one: merged into it if it is free and ends there.
  pub append_to : ℕ → ℕ → Cmd (Unit {0})
  append_to last block = do
    l ← load last
    b ← load block
    if l.is_free && u32 (last + l.size) == block
        then set_size last (u32 (l.size + b.size))
        else (set_prev block last >> set_next last block)

  pub link_block : ℕ → ℕ → Cmd Bool
  link_block block map_at h =
      if h.first == 0
      then done true (record h { first = block; end = map_at })
      else (do
        last ← walk_last max_blocks h.first
        append_to last block
        λ h'. done true (record h' { end = map_at }))
          h

  -- Behind the loop: the block that covers the new pages is written and linked.
  abbrev pub use_pages : ℕ → Option ℕ → Cmd Bool
  use_pages end none = pure false
  use_pages end (some map_at) =
      store end (record { size = sub32 map_at end; is_free = true; next = 0; prev = 0 })
      >> link_block end map_at

  pub extend : ℕ → Cmd Bool
  extend min_bytes h =
      let mapped_bytes = sub32 h.end h.start in
      let need_bytes =
        if ltb min_bytes (grow_pages * page_size) then grow_pages * page_size else min_bytes in
      let pages = u32 (need_bytes + page_size - 1) / page_size in
      if leb max_bytes mapped_bytes
      then done false h
      else (map_pages pages h.end >>= use_pages h.end) h

  -- `remainder` is written whole, as its four fields are.
  pub split : ℕ → ℕ → Cmd (Unit {0})
  split block needed = do
    b ← load block
    let remainder = u32 (block + needed)
    if ltb b.size (u32 (needed + min_block)) then set_free block false else (do
      store remainder
          (record { size = sub32 b.size needed; is_free = true; next = b.next; prev = block })
      (if b.next == 0 then pure tt else set_prev b.next remainder)
      c ← load block
      store block (record c { size = needed; is_free = false; next = remainder }))

  -- The three writes with which `kheap_coalesce` takes `next` into `block`; it does so twice.
  pub absorb : ℕ → ℕ → Cmd (Unit {0})
  absorb block next = do
    b ← load block
    n ← load next
    store block (record b { size = u32 (b.size + n.size); next = n.next })
    if n.next == 0 then pure tt else set_prev n.next block

  -- The two halves of `kheap_coalesce`.
  pub merge_next : ℕ → Cmd (Unit {0})
  unfolding absorb
  merge_next block = do
    b ← load block
    if b.next == 0
        then pure tt
        else (do n ← load b.next; if n.is_free then absorb block b.next else pure tt)

  pub merge_prev : ℕ → Cmd (Unit {0})
  unfolding absorb
  merge_prev block = do
    b ← load block
    if b.prev == 0
        then pure tt
        else (do p ← load b.prev; if p.is_free then absorb b.prev block else pure tt)

  pub coalesce : ℕ → Cmd (Unit {0})
  unfolding merge_next merge_prev
  coalesce block = merge_next block >> merge_prev block

  pub init : Cmd (Unit {0})
  init h =
      (extend page_size >>= λ _. pure tt)
        (record h { start = kheap_start; end = kheap_start; first = 0 })

  -- The search of `kmalloc` from `cur` on; `none` at the end of the list.
  pub find_fit : ℕ → ℕ → ℕ → Cmd (Option ℕ)
  find_fit needed zero cur = forever
  find_fit needed (suc fuel) cur =
      let rest = λ (c : Block). find_fit needed fuel c.next in
      if cur == 0 then pure none else (do
        c ← load cur
        if c.is_free && leb needed c.size
            then (split cur needed >> pure (some (u32 (cur + header_size))))
            else rest c)

  -- `for (;;)`: search, extend, search again.
  pub kmalloc_loop : ℕ → ℕ → Cmd ℕ
  unfolding find_fit
  kmalloc_loop needed zero = forever
  kmalloc_loop needed (suc rounds) =
      let again = kmalloc_loop needed rounds in
      (do
        first ← get_first
        found ← find_fit needed max_blocks first
        elim found [
          | some ptr ↦ pure ptr
          | none ↦ (do ok ← extend needed; if ok then again else pure 0)
        ])

  pub kmalloc : ℕ → Cmd ℕ
  unfolding kmalloc_loop
  kmalloc size = if size == 0 then pure 0 else kmalloc_loop (needed_size size) 3

  pub kfree : ℕ → Cmd (Unit {0})
  unfolding coalesce
  kfree ptr =
      if ptr == 0
      then pure tt
      else let block = sub32 ptr header_size in set_free block true >> coalesce block

  pub total_bytes : Heap State → ℕ
  total_bytes h = sub32 h.end h.start

  pub sum_used : ℕ → ℕ → ℕ → Cmd ℕ
  sum_used zero cur used = forever
  sum_used (suc fuel) cur used =
      let rest =
        λ (c : Block). sum_used fuel c.next (if c.is_free then used else u32 (used + c.size)) in
      if cur == 0 then pure used else (do c ← load cur; rest c)

  pub used_bytes : Cmd ℕ
  unfolding sum_used
  used_bytes h = sum_used max_blocks h.first 0 h
