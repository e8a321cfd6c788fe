-- ===== src/Keyboard/Ring.antt =====
-- The ring buffer holds a list of characters.
use simply_os.Base.{
  ℕ, zero, suc, ◌+◌, ◌-◌, ◌%◌, ◌≤◌, ◌<◌, ◌≡◌, refl, ◌∙◌, ap, arith, List, [], ◌∷◌, ◌++◌, get_or,
  set, length, get_or-set_self, get_or-set_ne, Bool, true, false, ◌==◌, if◌then◌else◌, length-set,
  ltb, Bool-cases, inl, inr,
}
use simply_os.Keyboard.{Keyboard, buf_size, buffer_push}

-- `n` characters of a buffer from a position on, around its end.
abbrev pub ring : List ℕ → ℕ → ℕ → List ℕ
ring buffer pos zero = []
ring buffer pos (suc n) = get_or buffer pos 0 ∷ ring buffer ((pos + 1) % buf_size) n

abbrev pub held : Keyboard → ℕ
held k = (k.write_pos + buf_size - k.read_pos) % buf_size

-- The characters that wait to be read, the oldest first.
abbrev pub contents : Keyboard → List ℕ
contents k = ring k.buffer k.read_pos (held k)

pub record IsValid (k : Keyboard) : Type 0 where
  pub buffer_size : length k.buffer ≡ buf_size
  pub reads : k.read_pos < buf_size
  pub writes : k.write_pos < buf_size

pub length-ring : (buffer : List ℕ) (pos n : ℕ) → length (ring buffer pos n) ≡ n
length-ring buffer pos zero = refl
length-ring buffer pos (suc n) = ap suc (length-ring buffer ((pos + 1) % buf_size) n)

-- A write behind the characters leaves them.
ring-set :
    (buffer : List ℕ) (c pos n m : ℕ)
    → pos < buf_size
    → n ≤ m
    → m < buf_size
    → ring (set buffer ((pos + m) % buf_size) c) pos n ≡ ring buffer pos n
ring-set buffer c pos zero m inside few small = refl
ring-set buffer c pos (suc n) (suc m) inside few small =
    let next : (pos + 1) % buf_size < buf_size = omega arith in
    let same : ((pos + 1) % buf_size + m) % buf_size ≡ (pos + suc m) % buf_size = omega arith in
    let rest = ring-set buffer c ((pos + 1) % buf_size) n m next (omega arith) (omega arith) in
    rw (get_or-set_ne buffer ((pos + suc m) % buf_size) pos c 0 (λ e. omega arith), rw same at rest)
      refl
ring-set buffer c pos (suc n) zero inside few small = absurd (omega arith)

-- One more character at the end.
ring-suc :
    (buffer : List ℕ) (pos n : ℕ)
    → pos < buf_size
    → ring buffer pos (n + 1) ≡ ring buffer pos n ++ (get_or buffer ((pos + n) % buf_size) 0 ∷ [])
ring-suc buffer pos zero inside = let here : (pos + 0) % buf_size ≡ pos = omega arith in rw here
ring-suc buffer pos (suc n) inside =
    let more : suc n + 1 ≡ suc (n + 1) = omega arith in
    let same : ((pos + 1) % buf_size + n) % buf_size ≡ (pos + suc n) % buf_size = omega arith in
    let rest = ring-suc buffer ((pos + 1) % buf_size) n (omega arith) in rw (more, rw same at rest)

pub room : Keyboard → Bool
room k = ltb (length (contents k)) 255

-- kbd_buffer_push on a valid state adds the character at the end of the queue if fewer than 255
-- wait, and drops it otherwise.
pub contents-buffer_push :
    (k : Keyboard) (c : ℕ)
    → IsValid k
    → contents (buffer_push k c) ≡ (if room k then contents k ++ (c ∷ []) else contents k)
unfolding buffer_push room
contents-buffer_push k c v =
    rw (length-ring k.buffer k.read_pos (held k))
      (elim (Bool-cases ((k.write_pos + 1) % buf_size == k.read_pos)) [
        | inl full ↦
            let no_room : ltb (held k) 255 ≡ false = ground (arith, v.reads, v.writes) in
            rw (full, no_room) refl
        | inr free ↦
            let some_room : ltb (held k) 255 ≡ true = ground (arith, v.reads, v.writes) in
            rw (free, some_room) (pushed (ground (arith, v.reads, v.writes)))
      ])
  where
    pushed :
        held k < 255
        → ring
            (set k.buffer k.write_pos c)
            k.read_pos
            (((k.write_pos + 1) % buf_size + buf_size - k.read_pos) % buf_size)
          ≡ contents k ++ (c ∷ [])
    pushed small =
        let at_end : (k.read_pos + held k) % buf_size ≡ k.write_pos =
          omega (arith, v.reads, v.writes) in
        let more : ((k.write_pos + 1) % buf_size + buf_size - k.read_pos) % buf_size ≡ held k + 1 =
          omega (arith, v.reads, v.writes) in
        let kept =
          ring-set k.buffer c k.read_pos (held k) (held k) v.reads (omega arith) (omega arith) in
        let last =
          get_or-set_self k.buffer k.write_pos c 0 (omega (arith, v.writes, v.buffer_size)) in
        ap (ring (set k.buffer k.write_pos c) k.read_pos) more
        ∙ ring-suc (set k.buffer k.write_pos c) k.read_pos (held k) v.reads
        ∙ rw (at_end, last, rw at_end at kept) refl

pub buffer_push-IsValid : (k : Keyboard) (c : ℕ) → IsValid k → IsValid (buffer_push k c)
unfolding buffer_push
buffer_push-IsValid k c v = elim (Bool-cases ((k.write_pos + 1) % buf_size == k.read_pos)) [
  | inl full ↦ rw full v
  | inr free ↦ rw free (record {
    buffer_size = length-set k.buffer k.write_pos c ∙ v.buffer_size;
    reads = v.reads;
    writes = omega arith;
  })
]
