-- ===== src/Gdt/Encode.antt =====
-- What create_descriptor and encodeGdtEntry put in the eight bytes of a descriptor.
use simply_os.Base.{
  ℕ, ◌+◌, ◌*◌, ◌/◌, ◌%◌, ◌^◌, ◌<◌, ◌≤◌, ◌≡◌, refl, ◌∙◌, ap, arith, bit_and, bit_or, u64, ◌<<<◌,
  ◌>>>◌, List, [], ◌∷◌, ◌++◌, Option, some, none, ltb, false, Bool-cases, inl, inr,
}
use mathlib.Core.Path.{ap₂}
use simply_os.Base.Bits.{
  bit_or_split, bit_and_split, bit_and_mask, bit_and_high, bit_or-zero, zero-bit_or, bit_or_fields,
}
use simply_os.Gdt.{
  GdtDescriptor, GdtEntry, descriptor_of, create_descriptor, encode_gdt_entry, limit_error,
}
use simply_os.Libc.Print.{Result, printf}
use simply_os.Gdt.Bytes.{word, bit_or-number, bit_or_self, bit_or-byte}

or_nibbles : (low high : ℕ) → low < 16 → bit_or low (high * 16) ≡ high * 16 + low
or_nibbles low high h =
    ap₂ bit_or (omega arith) (omega arith)
    ∙ bit_or_split 4 0 low high 0 h (omega arith)
    ∙ omega (arith, zero-bit_or high, bit_or-zero low)

-- The parts of the flags and of the limit: bits 0 to 7 and 12 to 15, and bits 16 to 19.
module _ (base limit flag : ℕ) (b : base < 2 ^ 32) (f : flag < 2 ^ 16) where
  limit_part : bit_and limit 0x000F0000 ≡ word 0 (limit / 2 ^ 16 % 16) 0 0
  limit_part = bit_and_high 16 limit 15 ∙ omega (arith, bit_and_mask 4 (limit / 2 ^ 16))

  flag_part : bit_and (flag <<< 8) 0x00F0FF00 ≡ word 0 (flag / 2 ^ 12 * 16) (flag % 256) 0
  flag_part =
      let shifted : (flag <<< 8) / 2 ^ 8 ≡ flag = omega arith in
      let cut : flag ≡ flag / 2 ^ 12 * 2 ^ 12 + flag % 2 ^ 12 = omega arith in
      let kept : bit_and flag 0xF0FF ≡ flag / 2 ^ 12 * 2 ^ 12 + flag % 256 =
        ap (λ t. bit_and t 0xF0FF) cut
        ∙ bit_and_split 12 (flag / 2 ^ 12) (flag % 2 ^ 12) 15 0xFF (omega arith) (omega arith)
        ∙ omega (arith, bit_and_mask 4 (flag / 2 ^ 12), bit_and_mask 8 (flag % 2 ^ 12)) in
      bit_and_high 8 (flag <<< 8) 0xF0FF ∙ rw shifted (omega (arith, kept))

  middle_part : bit_and (base >>> 16) 0xFF ≡ word 0 0 0 (base / 2 ^ 16 % 256)
  middle_part = omega (arith, bit_and_mask 8 (base >>> 16))

  high_part : bit_and base 0xFF000000 ≡ word (base / 2 ^ 24) 0 0 0
  high_part = bit_and_high 24 base 0xFF ∙ omega (arith, bit_and_mask 8 (base / 2 ^ 24))

  abbrev gran : ℕ
  gran = flag / 2 ^ 12 * 16 + limit / 2 ^ 16 % 16

  -- The four fields of the high half.
  high_half :
      bit_or
        (bit_or
          (bit_or (bit_and limit 0x000F0000) (bit_and (flag <<< 8) 0x00F0FF00))
          (bit_and (base >>> 16) 0x000000FF))
        (bit_and base 0xFF000000)
      ≡ word (base / 2 ^ 24) gran (flag % 256) (base / 2 ^ 16 % 256)
  high_half =
      let middle = base / 2 ^ 16 % 256 in
      let low = limit / 2 ^ 16 % 16 in
      let high = flag / 2 ^ 12 * 16 in
      let nibbles : bit_or low high ≡ gran = or_nibbles low (flag / 2 ^ 12) (omega arith) in
      let flags = flag % 256 in
      let one =
        bit_or-number (0, low, 0, 0) (0, high, flags, 0) (0, gran, flags, 0) limit_part flag_part
          (omega arith) (omega arith) (refl, nibbles, zero-bit_or flags, refl) in
      let two =
        bit_or-number (0, gran, flags, 0) (0, 0, 0, middle) (0, gran, flags, middle) one middle_part
          (omega arith) (omega arith)
          (refl, bit_or-zero gran, bit_or-zero flags, zero-bit_or middle) in
      let top = base / 2 ^ 24 in
      bit_or-number (0, gran, flags, middle) (top, 0, 0, 0) (top, gran, flags, middle) two high_part
        (omega arith) (omega arith)
        (zero-bit_or top, bit_or-zero gran, bit_or-zero flags, bit_or-zero middle)

  -- The access byte also takes the bits of the base from 24 on, which the shift of the 64-bit base
  -- leaves in place.
  abbrev access_byte : ℕ
  access_byte = bit_or (flag % 256) (base / 2 ^ 24)

  descriptor_of-fields :
      descriptor_of base limit flag
      ≡ word (base / 2 ^ 24) gran access_byte (base / 2 ^ 16 % 256) * 2 ^ 32
        + (base % 2 ^ 16 * 2 ^ 16 + limit % 2 ^ 16)
  unfolding descriptor_of
  descriptor_of-fields =
      let middle = base / 2 ^ 16 % 256 in
      let high = word (base / 2 ^ 24) gran (flag % 256) middle in
      let fits : u64 (high <<< 32) ≡ high * 2 ^ 32 + 0 = omega arith in
      let based : u64 (base <<< 16) ≡ (base / 2 ^ 16) * 2 ^ 32 + base % 2 ^ 16 * 2 ^ 16 =
        omega arith in
      let top = base / 2 ^ 24 in
      let full = word top gran access_byte middle in
      let upper : bit_or high (base / 2 ^ 16) ≡ full =
        bit_or-number (top, gran, flag % 256, middle) (0, 0, top, middle)
          (top, gran, access_byte, middle) refl (omega arith) (omega arith) (omega arith)
          (bit_or-zero top, bit_or-zero gran, refl, bit_or_self middle (omega arith)) in
      let lower : bit_or 0 (base % 2 ^ 16 * 2 ^ 16) ≡ base % 2 ^ 16 * 2 ^ 16 = zero-bit_or _ in
      let both : bit_or (u64 (high <<< 32)) (u64 (base <<< 16))
          ≡ (full * 2 ^ 16 + base % 2 ^ 16) * 2 ^ 16 =
        ap₂ bit_or fits based
        ∙ bit_or_split 32 high 0 (base / 2 ^ 16) (base % 2 ^ 16 * 2 ^ 16) (omega arith)
            (omega arith)
        ∙ omega (arith, ap (λ t. t * 2 ^ 32) upper, lower) in
      let masked : bit_and limit 0xFFFF ≡ limit % 2 ^ 16 = omega (arith, bit_and_mask 16 limit) in
      rw (descriptor_of, high_half, both, masked)
        (bit_or_fields 16 (full * 2 ^ 16 + base % 2 ^ 16) (limit % 2 ^ 16) (omega arith)
          ∙ omega arith)

  -- create_descriptor, for a 32-bit base and 16-bit flags, puts each part of its arguments into
  -- its field, but the access byte is the one of the flags or-ed with bits 24 to 31 of the base.
  pub create_descriptor-fields : create_descriptor base limit flag ≡ record {
    limit_low = limit % 2 ^ 16;
    base_low = base % 2 ^ 16;
    base_middle = base / 2 ^ 16 % 256;
    access = access_byte;
    granularity = gran;
    base_high = base / 2 ^ 24;
  }
  unfolding create_descriptor
  create_descriptor-fields =
      let d = descriptor_of base limit flag in
      let whole = descriptor_of-fields in
      let byte = bit_or-byte (flag % 256) (base / 2 ^ 24) (omega arith) (omega arith) in
      let one : bit_and d 0xFFFF ≡ limit % 2 ^ 16 = omega (arith, whole, bit_and_mask 16 d) in
      let two : bit_and (d >>> 16) 0xFFFF ≡ base % 2 ^ 16 =
        omega (arith, whole, bit_and_mask 16 (d / 2 ^ 16)) in
      let three : bit_and (d >>> 32) 0xFF ≡ base / 2 ^ 16 % 256 =
        omega (arith, whole, bit_and_mask 8 (d / 2 ^ 32)) in
      let four : bit_and (d >>> 40) 0xFF ≡ access_byte =
        omega (arith, whole, byte, bit_and_mask 8 (d / 2 ^ 40)) in
      let five : bit_and (d >>> 48) 0xFF ≡ gran =
        omega (arith, whole, byte, bit_and_mask 8 (d / 2 ^ 48)) in
      let six : bit_and (d >>> 56) 0xFF ≡ base / 2 ^ 24 =
        omega (arith, whole, byte, bit_and_mask 8 (d / 2 ^ 56)) in
      rw (one, two, three, four, five, six) refl

-- The bytes of a descriptor in memory.
abbrev pub bytes : GdtEntry → List ℕ
bytes e =
    e.limit_low % 256
    ∷ e.limit_low / 256
    ∷ e.base_low % 256
    ∷ e.base_low / 256
    ∷ e.base_middle
    ∷ e.access
    ∷ e.granularity
    ∷ e.base_high
    ∷ []

-- The eight bytes of a descriptor, lowest first: limit, base, flags and the rest of both.
abbrev pub layout : GdtDescriptor → List ℕ
layout s =
    s.limit % 256
    ∷ s.limit / 256 % 256
    ∷ s.base % 256
    ∷ s.base / 256 % 256
    ∷ s.base / 2 ^ 16 % 256
    ∷ s.flags % 256
    ∷ (s.flags / 2 ^ 12 * 16 + s.limit / 2 ^ 16 % 16)
    ∷ s.base / 2 ^ 24
    ∷ []

layout-bytes :
    (s : GdtDescriptor)
    → s.base < 2 ^ 24
    → s.flags < 2 ^ 16
    → layout s ≡ bytes (create_descriptor s.base s.limit s.flags)
layout-bytes s b f =
    let zero_top : s.base / 2 ^ 24 ≡ 0 = omega arith in
    let one : s.limit % 2 ^ 16 % 256 ≡ s.limit % 256 = omega arith in
    let two : s.limit % 2 ^ 16 / 256 ≡ s.limit / 256 % 256 = omega arith in
    let three : s.base % 2 ^ 16 % 256 ≡ s.base % 256 = omega arith in
    let four : s.base % 2 ^ 16 / 256 ≡ s.base / 256 % 256 = omega arith in
    rw
      (
        create_descriptor-fields s.base s.limit s.flags (omega arith) f,
        zero_top,
        bit_or-zero (s.flags % 256),
        one,
        two,
        three,
        four,
      )
      refl

-- What encodeGdtEntry does with the eight bytes at `target` and those behind them, and what it
-- prints.
pub data Encodes (s : GdtDescriptor) (target after : List ℕ) : List ℕ × Option Result → Type 0 where
  refused :
      0xFFFFF < s.limit → Encodes s target after (target ++ after, some (printf limit_error [] []))
  written : s.limit ≤ 0xFFFFF → Encodes s target after (layout s ++ after, none)

module _ (s : GdtDescriptor) (b : s.base < 2 ^ 32) (f : s.flags < 2 ^ 16)
    (t0 t1 t2 t3 t4 t5 t6 t7 : ℕ) (after : List ℕ) where
  abbrev target : List ℕ
  target = t0 ∷ t1 ∷ t2 ∷ t3 ∷ t4 ∷ t5 ∷ t6 ∷ t7 ∷ []

  encoded : s.limit ≤ 0xFFFFF → encode_gdt_entry (target ++ after) s ≡ (layout s ++ after, none)
  unfolding encode_gdt_entry
  encoded fits =
      let small : ltb 0xFFFFF s.limit ≡ false = ground arith in
      let low = s.limit / 2 ^ 16 % 16 in
      let high : bit_and (s.flags >>> 8) 0xF0 ≡ s.flags / 2 ^ 12 * 16 =
        bit_and_high 4 (s.flags >>> 8) 15
        ∙ omega (arith, bit_and_mask 4 ((s.flags >>> 8) / 2 ^ 4)) in
      let top : bit_and (s.base >>> 24) 0xFF ≡ s.base / 2 ^ 24 =
        omega (arith, bit_and_mask 8 (s.base / 2 ^ 24)) in
      rw
        (
          encode_gdt_entry,
          small,
          high,
          top,
          bit_and_mask 8 s.limit,
          bit_and_mask 8 (s.limit / 256),
          bit_and_mask 4 (s.limit / 2 ^ 16),
          bit_and_mask 8 s.base,
          bit_and_mask 8 (s.base / 256),
          bit_and_mask 8 (s.base / 2 ^ 16),
          bit_and_mask 8 s.flags,
          or_nibbles low (s.flags / 2 ^ 12) (omega arith),
        )
        refl

  -- encodeGdtEntry on eight bytes, whatever they are, with any bytes behind them, for a 32-bit
  -- base and 16-bit flags: for a limit above 0xFFFFF it changes nothing and prints the error, for
  -- any other it fills the eight bytes with the limit, the base, the low byte of the flags and
  -- bits 12 to 15 of them, prints nothing, and leaves the bytes behind.
  pub encode_gdt_entry-Encodes : Encodes s target after (encode_gdt_entry (target ++ after) s)
  unfolding encode_gdt_entry
  encode_gdt_entry-Encodes = elim (Bool-cases (ltb 0xFFFFF s.limit)) [
    | inl e ↦ rw (encode_gdt_entry, e) (refused (ground arith))
    | inr e ↦ rw (encoded (ground arith)) (written (ground arith))
  ]

  -- For a base below 2^24, a limit that can be encoded and 16-bit flags, encodeGdtEntry writes the
  -- bytes of the descriptor that create_descriptor builds.
  pub encode_gdt_entry-create_descriptor :
      s.base < 2 ^ 24
      → s.limit ≤ 0xFFFFF
      → (encode_gdt_entry (target ++ after) s).0
        ≡ bytes (create_descriptor s.base s.limit s.flags) ++ after
  encode_gdt_entry-create_descriptor low fits =
      ap (λ r. r.0) (encoded fits) ∙ ap (λ bs. bs ++ after) (layout-bytes s low f)
