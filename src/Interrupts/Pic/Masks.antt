-- ===== src/Interrupts/Pic/Masks.antt =====
-- What pic_mask and pic_unmask do to the masks of the two controllers.
use simply_os.Base.{
  ℕ, ◌-◌, ◌/◌, ◌%◌, ◌^◌, ◌<◌, ◌≡◌, refl, ◌∙◌, sym, subst, arith, Bool, true, false, ltb, ◌==◌,
  if◌then◌else◌, bit_or, bit_and, u8, ◌<<<◌, Bool-cases, inl, inr,
}
use simply_os.Base.Loops.{every, every_lookup}
use simply_os.Interrupts.Ports.{Bus, Chips, ready}
use simply_os.Interrupts.Pic.{pic_unmask, pic_mask_port, pic_irq_line}
use simply_os.Interrupts.Pic.Remap.{outb-chips}

abbrev pub bit : ℕ → ℕ → Bool
bit value line = value / 2 ^ line % 2 == 1

abbrev same : Bool → Bool → Bool
same true b = b
same false true = false
same false false = true

same→≡ : (a b : Bool) → same a b ≡ true → a ≡ b
same→≡ a b e = ground arith

abbrev set_bit : ℕ → ℕ → ℕ
set_bit line value = u8 (bit_or value (1 <<< line))

abbrev clear_bit : ℕ → ℕ → ℕ
clear_bit line value = u8 (bit_and value (2 ^ 32 - 1 - (1 <<< line)))

-- A byte, the line that is written and the line that is looked at.
abbrev cases_of : (ℕ → ℕ → ℕ → Bool) → Bool
cases_of test = every 8 (λ line. every 8 (λ other. every 256 (λ value. test line other value)))

all_clear :
    cases_of (λ line other value.
      same (bit (clear_bit line value) other) (if other == line then false else bit value other))
    ≡ true
unfolding every
all_clear = refl

-- The byte operation `f` gives line `line` the value `v` and leaves the others.
abbrev Gives : Bool → (ℕ → ℕ → ℕ) → Type 0
Gives v f =
    (line other value : ℕ)
    → line < 8
    → other < 8
    → value < 256
    → bit (f line value) other ≡ (if other == line then v else bit value other)

clear_bit-Gives : Gives false clear_bit
clear_bit-Gives line other value l o byte =
    same→≡ _ _
      (every_lookup 256 _ value (every_lookup 8 _ other (every_lookup 8 _ line all_clear l) o) byte)

-- Whether an interrupt request from 0 to 15 is masked.
abbrev pub irq_masked : ℕ → Chips → Bool
irq_masked irq (m, s) = if ltb irq 8 then bit m.mask irq else bit s.mask (irq - 8)

-- Both controllers are past their initialisation.
pub record IsReady (at : Chips) : Type 0 where
  pub master_ready : at.0.phase ≡ ready
  pub slave_ready : at.1.phase ≡ ready
  pub master_byte : at.0.mask < 256
  pub slave_byte : at.1.mask < 256

-- Request `irq` is masked or not, as `v` says, and nothing else has changed.
pub record SetsMask (irq : ℕ) (v : Bool) (at after : Chips) : Type 0 where
  pub still_ready : IsReady after
  pub lines :
      (other : ℕ)
      → other < 16
      → irq_masked other after ≡ (if other == irq then v else irq_masked other at)
  pub vectors : (after.0.base ≡ at.0.base) × (after.1.base ≡ at.1.base)
  pub serving : (after.0.in_service ≡ at.0.in_service) × (after.1.in_service ≡ at.1.in_service)

abbrev put_mask : ℕ → (ℕ → ℕ → ℕ) → Chips → Chips
put_mask irq f (m, s) =
    if ltb irq 8
    then (record m { mask = f irq m.mask }, s)
    else (m, record s { mask = f (irq - 8) s.mask })

module _ (f : ℕ → ℕ → ℕ) (v : Bool) (g : Gives v f) (byte : (l x : ℕ) → f l x < 256) where
  put_mask-SetsMask :
      (irq : ℕ) (at : Chips) → irq < 16 → IsReady at → SetsMask irq v at (put_mask irq f at)
  put_mask-SetsMask irq (m, s) below r = elim (Bool-cases (ltb irq 8)) [
    | inl low ↦ rw low (record {
      still_ready = record {
        master_ready = r.master_ready;
        slave_ready = r.slave_ready;
        master_byte = byte irq m.mask;
        slave_byte = r.slave_byte;
      };
      lines = λ other o. elim (Bool-cases (ltb other 8)) [
        | inl here ↦ rw here (g irq other m.mask (ground arith) (ground arith) r.master_byte)
        | inr there ↦ let apart : (other == irq) ≡ false = ground arith in rw (there, apart) refl
      ];
      vectors = (refl, refl);
      serving = (refl, refl);
    })
    | inr high ↦ rw high (record {
      still_ready = record {
        master_ready = r.master_ready;
        slave_ready = r.slave_ready;
        master_byte = r.master_byte;
        slave_byte = byte (irq - 8) s.mask;
      };
      lines = λ other o. elim (Bool-cases (ltb other 8)) [
        | inl here ↦ let apart : (other == irq) ≡ false = ground arith in rw (here, apart) refl
        | inr there ↦
            let shifted : (other - 8 == irq - 8) ≡ (other == irq) = ground arith in
            rw (there, ← shifted)
              (g (irq - 8) (other - 8) s.mask (ground arith) (ground arith) r.slave_byte)
      ];
      vectors = (refl, refl);
      serving = (refl, refl);
    })
  ]

-- The read, the byte operation and the write of pic_mask and pic_unmask.
abbrev update : (b : Bus) → (ℕ → ℕ → ℕ) → ℕ → b.State → b.State
update b f irq s =
    let (value, s) = b.inb (pic_mask_port irq) s in
    b.outb (pic_mask_port irq) (f (pic_irq_line irq) value) s

module _ (b : Bus) (irq : ℕ) (s : b.State) (below : irq < 16) (r : IsReady (b.chips s)) where
  chips-update : (f : ℕ → ℕ → ℕ) → b.chips (update b f irq s) ≡ put_mask irq f (b.chips s)
  chips-update f = elim (Bool-cases (ltb irq 8)) [
    | inl low ↦ rw low (
        outb-chips b _ _ _ (b.chips-inb _ s)
        ∙ rw (low, b.master_mask s r.master_ready, r.master_ready) refl)
    | inr high ↦
        let line : u8 (irq - 8) ≡ irq - 8 = ground arith in
        rw high (
          outb-chips b _ _ _ (b.chips-inb _ s)
          ∙ rw (high, b.slave_mask s r.slave_ready, r.slave_ready, line) refl)
  ]

  -- pic_unmask of a request below 16, with both controllers ready, lets that request through,
  -- masks or lets through no other, and changes nothing else.
  pub pic_unmask-SetsMask : SetsMask irq false (b.chips s) (b.chips (pic_unmask b irq s))
  unfolding pic_unmask
  pic_unmask-SetsMask = subst (SetsMask irq false (b.chips s)) (sym (chips-update clear_bit)) (
      put_mask-SetsMask clear_bit false clear_bit-Gives (λ l x. omega arith) irq (b.chips s) below
        r)
