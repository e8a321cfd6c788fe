-- ===== src/Kheap/Chain.antt =====
-- The list of blocks in memory stands for a list of chunks.
use simply_os.Base.{
  ℕ, ◌+◌, ◌≤◌, ◌<◌, true, List, [], ◌∷◌, ◌≡◌, ◌≢◌, refl, ◌∙◌, ◌⊎◌, inl, arith, All, u32,
}
use simply_os.Kheap.Machine.{PageSource, Block, Memory, write, Heap, Run, done, and_then}
use simply_os.Kheap.{load, store, can_access}
use simply_os.Kheap.Chunks.{Chunk, IsChunk, total}

-- The pointer to the first of some blocks.
abbrev pub link : ℕ → List Chunk → ℕ
link a [] = 0
link a (c ∷ cs) = a

-- From address `a` on, behind the block at `p`, the headers describe the chunks, up to `e`.
abbrev pub Chain : Memory → ℕ → ℕ → List Chunk → ℕ → Type 0
Chain mem p a [] e = a ≡ e
Chain mem p a (c ∷ cs) e =
    (mem a ≡ record { size = c.size; is_free = c.free; next = link (a + c.size) cs; prev = p })
    × Chain mem a (a + c.size) cs e

pub Chain-end :
    (mem : Memory) (p a : ℕ) (cs : List Chunk) {e : ℕ} → Chain mem p a cs e → a + total cs ≡ e
Chain-end mem p a [] h = omega arith
Chain-end mem p a (c ∷ cs) h = omega (arith, Chain-end mem a (a + c.size) cs h.1)

-- Memories that agree from `lo` up to `hi`, and outside of it.
abbrev pub Agree : ℕ → ℕ → Memory → Memory → Type 0
Agree lo hi m n = (x : ℕ) → lo ≤ x → x < hi → n x ≡ m x

abbrev pub Outside : ℕ → ℕ → Memory → Memory → Type 0
Outside lo hi m n = (x : ℕ) → (x < lo) ⊎ (hi ≤ x) → n x ≡ m x

pub Chain-Agree :
    {m n : Memory} (p a : ℕ) (cs : List Chunk) {e : ℕ}
    → All IsChunk cs
    → Agree a e m n
    → Chain m p a cs e
    → Chain n p a cs e
Chain-Agree p a [] sizes same h = h
Chain-Agree {m} {n} p a (c ∷ cs) {e} sizes same h =
    let far = Chain-end m a (a + c.size) cs h.1 in
    (
      same a (omega arith) (omega (arith, far, sizes.0)) ∙ h.0,
      Chain-Agree a (a + c.size) cs sizes.1 (λ x lo hi. same x (omega arith) hi) h.1,
    )

pub Outside-trans :
    {lo hi : ℕ} {l m n : Memory} → Outside lo hi l m → Outside lo hi m n → Outside lo hi l n
Outside-trans f g x h = g x h ∙ f x h

pub Outside-write :
    {lo hi : ℕ} (m : Memory) (a : ℕ) (b : Block) → lo ≤ a → a < hi → Outside lo hi m (write m a b)
unfolding write
Outside-write m a b p q x h = ground arith

pub write_self : (m : Memory) (a : ℕ) (b : Block) → write m a b a ≡ b
unfolding write
write_self m a b = ground arith

pub write-ne : (m : Memory) (a x : ℕ) (b : Block) → x ≢ a → write m a b x ≡ m x
unfolding write
write-ne m a x b ne = ground arith

module _ (P : PageSource) where
  open P use {State, mapped}

  -- Every byte from `lo` up to `hi` is mapped.
  pub record Zone (s : State) (lo hi : ℕ) : Type 0 where
    pub all_mapped : (x : ℕ) → lo ≤ x → x < hi → mapped s x ≡ true
    pub pos : 0 < lo
    pub small : hi ≤ 0xC3000000

  pub Zone-part : {s : State} {lo hi : ℕ} (a b : ℕ) → Zone s lo hi → lo ≤ a → b ≤ hi → Zone s a b
  Zone-part a b z p q = record {
    all_mapped = λ x l h. z.all_mapped x (omega arith) (omega arith);
    pos = omega (arith, z.pos);
    small = omega (arith, z.small);
  }

  can_access-ok :
      {lo hi : ℕ} (h : Heap State) (a : ℕ)
      → Zone h.pages lo hi
      → lo ≤ a
      → a + 24 ≤ hi
      → can_access P h a ≡ true
  can_access-ok h a z p q =
      let wide : u32 (a + 15) ≡ a + 15 = omega (arith, z.small) in
      rw (z.all_mapped a p (omega arith), wide, z.all_mapped (a + 15) (omega arith) (omega arith))

  pub load-ok :
      {lo hi : ℕ} (h : Heap State) (a : ℕ)
      → Zone h.pages lo hi
      → lo ≤ a
      → a + 24 ≤ hi
      → load P a h ≡ done (h.mem a) h
  unfolding load
  load-ok h a z p q = rw (can_access-ok h a z p q)

  pub store-ok :
      {lo hi : ℕ} (h : Heap State) (a : ℕ) (b : Block)
      → Zone h.pages lo hi
      → lo ≤ a
      → a + 24 ≤ hi
      → store P a b h ≡ done tt (record h { mem = write h.mem a b })
  unfolding store
  store-ok h a b z p q = rw (can_access-ok h a z p q)

-- The run ends with result `r`, having changed only headers from `lo` up to `hi`, and the memory
-- that it leaves satisfies `Q`.
pub record Leaves {S A : Type 0} (run : Run S A) (r : A) (h : Heap S) (lo hi : ℕ)
    (Q : Memory → Type 0) : Type 0 where
  pub mem : Memory
  pub runs : run ≡ done r (record h { mem = mem })
  pub outside : Outside lo hi h.mem mem
  pub holds : Q mem

-- A step, and then a run from the memory that it leaves.
pub Leaves-bind :
    {S A B : Type 0} {m : Run S A} {a : A} (k : A → Heap S → Run S B) {b : B} {h : Heap S}
    {lo hi : ℕ} {Q R : Memory → Type 0}
    → Leaves m a h lo hi Q
    → ((mem : Memory)
        → Q mem
        → Leaves (k a (record h { mem = mem })) b (record h { mem = mem }) lo hi R)
    → Leaves (and_then m k) b h lo hi R
Leaves-bind k {h = h} step go =
    let last = go step.mem step.holds in
    record {
      mem = last.mem;
      runs = rw step.runs last.runs;
      outside = Outside-trans step.outside last.outside;
      holds = last.holds;
    }

-- Nothing changes.
pub Leaves-pure :
    {S A : Type 0} {a : A} {h : Heap S} {lo hi : ℕ} {Q : Memory → Type 0}
    → Q h.mem
    → Leaves (done a h) a h lo hi Q
Leaves-pure {h = h} q = record { mem = h.mem; runs = refl; outside = λ x o. refl; holds = q }

-- What happens to the blocks behind a block leaves that block alone.
pub Leaves-behind :
    {S A : Type 0} {run : Run S A} {r : A} (h : Heap S) (p a hi e : ℕ) (c : Chunk)
    (cs ds : List Chunk)
    → IsChunk c
    → h.mem a ≡ record { size = c.size; is_free = c.free; next = link (a + c.size) cs; prev = p }
    → link (a + c.size) ds ≡ link (a + c.size) cs
    → Leaves run r h (a + c.size) hi (λ m. Chain m a (a + c.size) ds e)
    → Leaves run r h a hi (λ m. Chain m p a (c ∷ ds) e)
Leaves-behind h p a hi e c cs ds size head same res = record {
  mem = res.mem;
  runs = res.runs;
  outside = λ x q. res.outside x (ground arith);
  holds = (rw (same, res.outside a (inl (omega arith))) head, res.holds);
}

pub Leaves-cons :
    {S A : Type 0} {run : Run S A} {r : A} (h : Heap S) (p a e : ℕ) (c : Chunk) (cs ds : List Chunk)
    → IsChunk c
    → Chain h.mem p a (c ∷ cs) e
    → link (a + c.size) ds ≡ link (a + c.size) cs
    → Leaves run r h (a + c.size) e (λ m. Chain m a (a + c.size) ds e)
    → Leaves run r h a e (λ m. Chain m p a (c ∷ ds) e)
Leaves-cons h p a e c cs ds size ch same res = Leaves-behind h p a e e c cs ds size ch.0 same res
