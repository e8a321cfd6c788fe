-- ===== src/Keyboard/Reader.antt =====
-- `keyboard_getchar`, with the scan codes that arrive while it waits.
use simply_os.Base.{
  ℕ, suc, ◌+◌, ◌-◌, ◌%◌, ◌≡◌, ◌≢◌, refl, ap, arith, List, [], ◌∷◌, ◌++◌, get_or, length, true,
  false, Bool-cases, inl, inr, Option, none, some,
}
use simply_os.Keyboard.{Keyboard, buf_size, has_key, irq_handler, getchar, init}
use simply_os.Keyboard.Ring.{IsValid, contents, held, ring}
use simply_os.Keyboard.Queue.{irq_handler-IsValid}

-- The reader takes the oldest character.
pub contents-take :
    (k : Keyboard)
    → IsValid k
    → has_key k ≡ true
    → contents k
      ≡ get_or k.buffer k.read_pos 0
        ∷ contents (record k { read_pos = (k.read_pos + 1) % buf_size })
unfolding has_key
contents-take k v some_key =
    let ne : k.read_pos ≢ k.write_pos = ground arith in
    let one_less : held k
        ≡ suc ((k.write_pos + buf_size - (k.read_pos + 1) % buf_size) % buf_size) =
      omega (arith, v.reads, v.writes) in
    ap (ring k.buffer k.read_pos) one_less

pub contents-none : (k : Keyboard) → IsValid k → has_key k ≡ false → contents k ≡ []
unfolding has_key
contents-none k v no_key =
    let same : k.read_pos ≡ k.write_pos = ground arith in
    let empty : held k ≡ 0 = omega (arith, v.reads) in ap (ring k.buffer k.read_pos) empty

take-IsValid :
    (k : Keyboard) → IsValid k → IsValid (record k { read_pos = (k.read_pos + 1) % buf_size })
take-IsValid k v = record { buffer_size = v.buffer_size; reads = omega arith; writes = v.writes }

-- The handler for each of some scan codes.
abbrev pub irqs : Keyboard → List ℕ → Keyboard
irqs k [] = k
irqs k (code ∷ codes) = irqs (irq_handler k code) codes

-- The two outcomes of the reader: it waits, with nothing to read after all the scan codes; or, after
-- a part of them, it returns the oldest character that waits and leaves the others.
pub data Gets (k : Keyboard) (codes : List ℕ) (r : Option (ℕ × Keyboard × List ℕ)) : Type 0 where
  waits : r ≡ none → contents (irqs k codes) ≡ [] → Gets k codes r
  gets :
      (before after : List ℕ) (c : ℕ) (k' : Keyboard)
      → codes ≡ before ++ after
      → r ≡ some (c, k', after)
      → contents (irqs k before) ≡ c ∷ contents k'
      → IsValid k'
      → Gets k codes r

Gets-code :
    (k : Keyboard) (code : ℕ) (codes : List ℕ) (r : Option (ℕ × Keyboard × List ℕ))
    → Gets (irq_handler k code) codes r
    → Gets k (code ∷ codes) r
Gets-code k code codes r (waits e empty) = waits e empty
Gets-code k code codes r (gets before after c k' cut e same v) =
    gets (code ∷ before) after c k' (ap (λ t. code ∷ t) cut) e same v

-- keyboard_getchar, whatever scan codes arrive while it waits: either it waits on, with nothing to
-- read after all of them, or after a part of them it returns the oldest character that waits and
-- leaves the others.
pub getchar-Gets : (k : Keyboard) (codes : List ℕ) → IsValid k → Gets k codes (getchar k codes)
unfolding getchar
getchar-Gets k [] v = elim (Bool-cases (has_key k)) [
  | inl some_key ↦
      rw some_key (gets [] [] _ _ refl refl (contents-take k v some_key) (take-IsValid k v))
  | inr no_key ↦ rw no_key (waits refl (contents-none k v no_key))
]
getchar-Gets k (code ∷ codes) v = elim (Bool-cases (has_key k)) [
  | inl some_key ↦
      rw some_key
        (gets [] (code ∷ codes) _ _ refl refl (contents-take k v some_key) (take-IsValid k v))
  | inr no_key ↦ rw no_key (
      Gets-code k code codes _
        (getchar-Gets (irq_handler k code) codes (irq_handler-IsValid k v code)))
]

pub init-IsValid : (k : Keyboard) → length k.buffer ≡ buf_size → IsValid (init k)
unfolding init
init-IsValid k size = record { buffer_size = size; reads = omega arith; writes = omega arith }
