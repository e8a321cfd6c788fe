-- ===== src/Multiboot/Map.antt =====
-- The entries that are read are those that the boot loader laid out.
use simply_os.Base.{
  ℕ, zero, suc, ◌+◌, ◌*◌, ◌≤◌, ◌<◌, ◌≡◌, refl, ◌∙◌, ap, arith, true, false, not, ◌&&◌, ◌||◌, List,
  [], ◌∷◌, length, ltb, ◌==◌, if◌then◌else◌, u32, some, bit_and,
}
use simply_os.Multiboot.{
  Entry, Memory, read_u32, read_u64, ptr_in_identity_map, mmap_fields_offset, has_flag,
  parse_mmap_entry, parse_entries, early_init, max_mmap_entries, identity_map_limit,
  bootloader_magic,
}

in_map : (a : ℕ) → 0 < a → a < identity_map_limit → ptr_in_identity_map a ≡ true
unfolding ptr_in_identity_map
in_map a pos low = ground arith

module _ (mem : Memory) where
  -- From `a` on, up to `end`, stand the entries, each behind its size, all below 4 MiB.
  abbrev pub Laid : ℕ → List Entry → ℕ → Type 0
  Laid a [] end = a ≡ end
  Laid a (entry ∷ rest) end =
      (0 < a)
      × (20 ≤ read_u32 mem a)
      × (read_u64 mem (a + 4) ≡ entry.addr)
      × (read_u64 mem (a + 12) ≡ entry.len)
      × (read_u32 mem (a + 20) ≡ entry.kind)
      × Laid (a + (read_u32 mem a + 4)) rest end

  Laid-end : (a : ℕ) (es : List Entry) (end : ℕ) → Laid a es end → a + 24 * length es ≤ end
  Laid-end a [] end laid = omega (arith, laid)
  Laid-end a (entry ∷ rest) end (pos, size, addr, len, kind, more) =
      omega (arith, size, Laid-end (a + (read_u32 mem a + 4)) rest end more)

  parse_mmap_entry-some :
      (a : ℕ) (entry : Entry)
      → 0 < a
      → a < identity_map_limit
      → 20 ≤ read_u32 mem a
      → read_u64 mem (a + 4) ≡ entry.addr
      → read_u64 mem (a + 12) ≡ entry.len
      → read_u32 mem (a + 20) ≡ entry.kind
      → parse_mmap_entry mem a ≡ some entry
  unfolding parse_mmap_entry ptr_in_identity_map
  parse_mmap_entry-some a entry pos low size addr len kind =
      let inside : not (a == 0) && ltb a identity_map_limit ≡ true = ground arith in
      let large : ltb (read_u32 mem a) 20 ≡ false = ground arith in
      rw (inside, large, addr, len, kind) refl

  parse_entries-step :
      (mmap_addr mmap_length room offset : ℕ) (entry : Entry)
      → offset < mmap_length
      → parse_mmap_entry mem (u32 (mmap_addr + offset)) ≡ some entry
      → parse_entries mem mmap_addr mmap_length (suc room) offset
        ≡ entry
          ∷ parse_entries mem mmap_addr mmap_length room
              (u32 (offset + u32 (read_u32 mem (u32 (mmap_addr + offset)) + 4)))
  unfolding parse_entries
  parse_entries-step mmap_addr mmap_length room offset entry more parsed =
      let test : ltb offset mmap_length ≡ true = ground arith in rw (test, parsed) refl

  parse_entries-end :
      (mmap_addr mmap_length room offset : ℕ)
      → mmap_length ≤ offset
      → parse_entries mem mmap_addr mmap_length room offset ≡ []
  unfolding parse_entries
  parse_entries-end mmap_addr mmap_length zero offset past = refl
  parse_entries-end mmap_addr mmap_length (suc room) offset past =
      let test : ltb offset mmap_length ≡ false = ground arith in rw test refl

  parse_entries-Laid :
      (mmap_addr mmap_length room offset : ℕ) (es : List Entry)
      → Laid (mmap_addr + offset) es (mmap_addr + mmap_length)
      → mmap_addr + mmap_length ≤ identity_map_limit
      → length es ≤ room
      → parse_entries mem mmap_addr mmap_length room offset ≡ es
  parse_entries-Laid mmap_addr mmap_length room offset [] laid low few =
      parse_entries-end mmap_addr mmap_length room offset (omega (arith, laid))
  parse_entries-Laid mmap_addr mmap_length zero offset (entry ∷ rest) laid low few =
      absurd (omega arith)
  parse_entries-Laid mmap_addr mmap_length (suc room) offset (entry ∷ rest)
        (pos, size, addr, len, kind, more) low few =
      let a = mmap_addr + offset in
      let step = read_u32 mem a + 4 in
      let far = Laid-end (a + step) rest (mmap_addr + mmap_length) more in
      let here : u32 a ≡ a = omega (arith, far, low) in
      let next : u32 (offset + u32 step) ≡ offset + step = omega (arith, far, low) in
      let at : mmap_addr + (offset + step) ≡ a + step = omega arith in
      let parsed : parse_mmap_entry mem (u32 a) ≡ some entry =
        rw here (parse_mmap_entry-some a entry pos (omega (arith, far, size)) size addr len kind) in
      let rest_same =
        parse_entries-Laid mmap_addr mmap_length room (offset + step) rest (rw at more) low
          (omega arith) in
      parse_entries-step mmap_addr mmap_length room offset entry (omega (arith, far, size)) parsed
      ∙ ap (λ t. entry ∷ t) (rw (here, next) rest_same)

  -- With the magic number, an information structure below 4 MiB whose flags announce a map, and a
  -- map of 1 to 64 entries laid out below 4 MiB where the fields at the offset that the flags give
  -- say, multiboot_early_init keeps exactly these entries, in order.
  pub early_init-Laid :
      (info mmap_addr mmap_length : ℕ) (entry : Entry) (es : List Entry)
      → ptr_in_identity_map info ≡ true
      → has_flag (read_u32 mem info) 0x40 ≡ true
      → read_u32 mem (info + mmap_fields_offset (read_u32 mem info)) ≡ mmap_length
      → read_u32 mem (info + mmap_fields_offset (read_u32 mem info) + 4) ≡ mmap_addr
      → Laid mmap_addr (entry ∷ es) (mmap_addr + mmap_length)
      → mmap_addr + mmap_length ≤ identity_map_limit
      → length (entry ∷ es) ≤ max_mmap_entries
      → early_init mem bootloader_magic info ≡ record {
        valid = true;
        mem_upper_kb = if has_flag (read_u32 mem info) 0x01 then read_u32 mem (info + 8) else 0;
        mmap = entry ∷ es;
      }
  unfolding early_init
  early_init-Laid info mmap_addr mmap_length entry es near flag len addr laid low few =
      let start : mmap_addr + 0 ≡ mmap_addr = omega arith in
      let far = Laid-end mmap_addr (entry ∷ es) (mmap_addr + mmap_length) laid in
      let inside : ptr_in_identity_map mmap_addr ≡ true =
        in_map mmap_addr laid.0 (omega (arith, far, low)) in
      let map_flag : (bit_and (read_u32 mem info) 0x40 == 0) ≡ false = ground arith in
      let entries =
        parse_entries-Laid mmap_addr mmap_length max_mmap_entries 0 (entry ∷ es) (rw start laid) low
          few in
      rw (near, len, addr, map_flag, inside, entries) (ground arith)

-- Where the flags do not announce both kinds of symbols, the offset of the map fields that the
-- flags give is 44 exactly if the four fields before the symbols are announced and one kind of
-- symbols is.
pub mmap_fields_offset-fixed :
    (flags : ℕ)
    → (has_flag flags 0x10 && has_flag flags 0x20) ≡ false
    → (mmap_fields_offset flags == 44) ≡ (
        has_flag flags 0x01
        && has_flag flags 0x02
        && has_flag flags 0x04
        && has_flag flags 0x08
        && (has_flag flags 0x10 || has_flag flags 0x20))
unfolding mmap_fields_offset
mmap_fields_offset-fixed flags one = ground arith
