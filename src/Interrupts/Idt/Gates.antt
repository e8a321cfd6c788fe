-- ===== src/Interrupts/Idt/Gates.antt =====
-- Where the gates of the interrupt table lead after its initialisation.
use simply_os.Base.{
  ℕ, zero, suc, ◌+◌, ◌-◌, ◌/◌, ◌%◌, ◌^◌, ◌≤◌, ◌<◌, ◌≡◌, ◌≢◌, refl, ◌∙◌, subst, arith, Bool, true,
  false, ltb, leb, lt→ltb, some, ◌==◌, ◌&&◌, if◌then◌else◌, bit_and, u8, u16, ◌>>>◌, length, get_or,
  set, fill, length-set, get_or-set_self, get_or-set_ne, length-fill, get_or-fill, Bool-cases, inl,
  inr,
}
use simply_os.Base.Bits.{bit_and_mask}
use simply_os.Interrupts.Idt.{
  IdtEntry, Idt, zero_entry, idt_set_descriptor, set_exceptions, idt_init, set_requests, irq_init,
}

abbrev pub entry : Idt → ℕ → IdtEntry
entry t vector = get_or t.entries vector zero_entry

-- An interrupt gate of the kernel's code segment that leads to `address`.
abbrev pub gate : ℕ → IdtEntry
gate address = record {
  isr_low = address % 2 ^ 16;
  kernel_cs = 0x08;
  reserved = 0;
  attributes = 0x8E;
  isr_high = address / 2 ^ 16 % 2 ^ 16;
}

halves :
    (address : ℕ)
    → (u16 (bit_and address 0xFFFF) ≡ address % 2 ^ 16)
      × (u16 (bit_and (address >>> 16) 0xFFFF) ≡ address / 2 ^ 16 % 2 ^ 16)
halves address =
    (omega (arith, bit_and_mask 16 address), omega (arith, bit_and_mask 16 (address / 2 ^ 16)))

length-idt_set_descriptor :
    (v a f : ℕ) (t : Idt) → length (idt_set_descriptor v a f t).entries ≡ length t.entries
unfolding idt_set_descriptor
length-idt_set_descriptor v a f t = length-set t.entries v _

entry-idt_set_descriptor :
    (vector address : ℕ) (t : Idt) (other : ℕ)
    → vector < length t.entries
    → entry (idt_set_descriptor vector address 0x8E t) other
      ≡ (if other == vector then gate address else entry t other)
unfolding idt_set_descriptor
entry-idt_set_descriptor vector address t other inside =
    let (low, high) = halves address in
    elim (Bool-cases (other == vector)) [
      | inl here ↦
          let e : other ≡ vector = ground arith in
          rw (here, e) (get_or-set_self t.entries vector _ zero_entry inside ∙ rw (low, high) refl)
      | inr apart ↦
          let ne : vector ≢ other = ground arith in
          rw apart (get_or-set_ne t.entries vector other _ zero_entry ne)
    ]

-- The loops, from a vector on: they fill the vectors of their rounds.
length-set_exceptions :
    (stubs : ℕ → ℕ) (left v : ℕ) (t : Idt)
    → length (set_exceptions stubs left v t).entries ≡ length t.entries
unfolding set_exceptions
length-set_exceptions stubs zero v t = refl
length-set_exceptions stubs (suc left) v t =
    length-set_exceptions stubs left (u8 (v + 1)) _ ∙ length-idt_set_descriptor v (stubs v) 0x8E t

abbrev within : ℕ → ℕ → ℕ → Bool
within first rounds v = leb first v && ltb v (first + rounds)

-- A value at `v`, and the later rounds.
first_round :
    (f : ℕ → IdtEntry) (old : IdtEntry) (left v other : ℕ)
    → (if within (v + 1) left other then f other else if other == v then f v else old)
      ≡ (if within v (suc left) other then f other else old)
first_round f old left v other = elim (Bool-cases (other == v)) [
  | inl here ↦
      let e : other ≡ v = ground arith in
      let later : within (v + 1) left v ≡ false = ground arith in
      let now : within v (suc left) v ≡ true = ground arith in rw (here, e, later, now) refl
  | inr apart ↦
      let same : within (v + 1) left other ≡ within v (suc left) other = ground arith in
      rw (apart, same) refl
]

entry-set_exceptions :
    (stubs : ℕ → ℕ) (left v : ℕ) (t : Idt) (other : ℕ)
    → v + left ≤ 32
    → length t.entries ≡ 256
    → entry (set_exceptions stubs left v t) other
      ≡ (if within v left other then gate (stubs other) else entry t other)
unfolding set_exceptions
entry-set_exceptions stubs zero v t other below size = ground arith
entry-set_exceptions stubs (suc left) v t other below size =
    let next : u8 (v + 1) ≡ v + 1 = omega arith in
    let done = idt_set_descriptor v (stubs v) 0x8E t in
    let marked : Idt = record done { vectors = set done.vectors v true } in
    let ih =
      entry-set_exceptions stubs left (v + 1) marked other (omega arith)
        (length-idt_set_descriptor v (stubs v) 0x8E t ∙ size) in
    let here = entry-idt_set_descriptor v (stubs v) t other (omega (arith, size)) in
    rw (set_exceptions, next)
      (ih ∙ rw here (first_round (λ w. gate (stubs w)) (entry t other) left v other))

entry-set_requests :
    (stubs : ℕ → ℕ) (left i : ℕ) (t : Idt) (other : ℕ)
    → i + left ≤ 16
    → length t.entries ≡ 256
    → entry (set_requests stubs left i t) other
      ≡ (if within (32 + i) left other then gate (stubs (other - 32)) else entry t other)
unfolding set_requests
entry-set_requests stubs zero i t other below size = ground arith
entry-set_requests stubs (suc left) i t other below size =
    let next : u8 (i + 1) ≡ i + 1 = omega arith in
    let vector : u8 (32 + i) ≡ 32 + i = omega arith in
    let line : 32 + i - 32 ≡ i = omega arith in
    let shift : 32 + i + 1 ≡ 32 + (i + 1) = omega arith in
    let t' = idt_set_descriptor (32 + i) (stubs i) 0x8E t in
    let ih =
      entry-set_requests stubs left (i + 1) t' other (omega arith)
        (length-idt_set_descriptor (32 + i) (stubs i) 0x8E t ∙ size) in
    let here = entry-idt_set_descriptor (32 + i) (stubs i) t other (omega (arith, size)) in
    let merge = first_round (λ w. gate (stubs (w - 32))) (entry t other) left (32 + i) other in
    let there : (if within (32 + (i + 1)) left other
          then gate (stubs (other - 32))
          else if other == 32 + i
          then gate (stubs i)
          else entry t other)
        ≡ (if within (32 + i) (suc left) other then gate (stubs (other - 32)) else entry t other) =
      rw (← shift) (
        subst
          (λ l.
            (if within (32 + i + 1) left other
              then gate (stubs (other - 32))
              else if other == 32 + i
              then gate (stubs l)
              else entry t other)
            ≡ (if within (32 + i) (suc left) other
                then gate (stubs (other - 32))
                else entry t other))
          line merge) in
    rw (set_requests, next, vector) (ih ∙ rw here there)

-- The initialisations of the two parts of the table.
abbrev pub expected : (ℕ → ℕ) → (ℕ → ℕ) → ℕ → IdtEntry
expected isr_stub_table irq_stub_table vector =
    if ltb vector 32
    then gate (isr_stub_table vector)
    else if ltb vector 48
    then gate (irq_stub_table (vector - 32))
    else zero_entry

parts :
    (a b z : IdtEntry) (v : ℕ)
    → (if within 32 16 v then a else if within 0 32 v then b else z)
      ≡ (if ltb v 32 then b else if ltb v 48 then a else z)
parts a b z v = elim (Bool-cases (ltb v 32)) [
  | inl low ↦
      let first : within 0 32 v ≡ true = ground arith in
      let second : within 32 16 v ≡ false = ground arith in rw (first, second, low) refl
  | inr high ↦
      let first : within 0 32 v ≡ false = ground arith in
      let second : within 32 16 v ≡ ltb v 48 = ground arith in rw (first, second, high) refl
]

-- After idt_init and irq_init, on a table of 256 entries with anything in it, the gates of vectors 0
-- to 31 lead to the stubs of the exceptions, those of 32 to 47 to the stubs of requests 0 to 15, and
-- the others are not present.
pub idt-gates :
    (exceptions requests : ℕ → ℕ) (address : ℕ) (t : Idt) (vector : ℕ)
    → length t.entries ≡ 256
    → vector < 256
    → entry (irq_init requests (idt_init exceptions address t)) vector
      ≡ expected exceptions requests vector
unfolding irq_init idt_init
idt-gates exceptions requests address t vector size below =
    let cleared : Idt = record t {
      entries = fill 256 zero_entry t.entries;
      idtr = record { limit = 2047; base = address };
    } in
    let size' = length-fill 256 zero_entry t.entries ∙ size in
    let filled = set_exceptions exceptions 32 0 cleared in
    let blank : get_or (fill 256 zero_entry t.entries) vector zero_entry ≡ zero_entry =
      get_or-fill 256 zero_entry t.entries vector zero_entry (omega (arith, size))
      ∙ rw (lt→ltb vector 256 below) refl in
    let first = entry-set_exceptions exceptions 32 0 cleared vector (omega arith) size' in
    let second =
      entry-set_requests requests 16 0 (record filled { loaded = some filled.idtr }) vector
        (omega arith) (length-set_exceptions exceptions 32 0 cleared ∙ size') in
    second
    ∙ rw first (
        rw blank
          (parts (gate (requests (vector - 32))) (gate (exceptions vector)) zero_entry vector))
