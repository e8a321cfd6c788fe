-- ===== src/Gdt.antt =====
-- kernel/arch/i386/gdt/gdt.c and kernel/include/kernel/gdt/gdt.h: the segment descriptors.
pub mod Bytes
pub mod Encode
pub mod Segments
mod Tests
use simply_os.Base.{
  ℕ, zero, suc, ◌+◌, ◌-◌, ◌*◌, bit_and, bit_or, u8, u16, u64, ◌<<<◌, ◌>>>◌, ltb, if◌then◌else◌,
  List, [], ◌∷◌, get_or, set, Option, some, none, Bool, true,
}
use simply_os.Base.Text.{codes}
use simply_os.Libc.Print.{Result, printf}

-- The macros of one flag each, and the numbers they are applied to.
abbrev pub seg_desctype : ℕ → ℕ
seg_desctype x = x <<< 4

abbrev pub seg_pres : ℕ → ℕ
seg_pres x = x <<< 7

abbrev pub seg_savl : ℕ → ℕ
seg_savl x = x <<< 12

abbrev pub seg_long : ℕ → ℕ
seg_long x = x <<< 13

abbrev pub seg_size : ℕ → ℕ
seg_size x = x <<< 14

abbrev pub seg_gran : ℕ → ℕ
seg_gran x = x <<< 15

abbrev pub seg_priv : ℕ → ℕ
seg_priv x = bit_and x 3 <<< 5

abbrev pub seg_data_rdwr : ℕ
seg_data_rdwr = 0x02

abbrev pub seg_code_exrd : ℕ
seg_code_exrd = 0x0A

abbrev pub flags_of : ℕ → ℕ → ℕ
flags_of privilege kind =
    bit_or
      (bit_or
        (bit_or
          (bit_or (bit_or (bit_or (bit_or (seg_desctype 1) (seg_pres 1)) (seg_savl 0)) (seg_long 0))
            (seg_size 1))
          (seg_gran 1))
        (seg_priv privilege))
      kind

abbrev pub gdt_code_pl0 : ℕ
gdt_code_pl0 = flags_of 0 seg_code_exrd

abbrev pub gdt_data_pl0 : ℕ
gdt_data_pl0 = flags_of 0 seg_data_rdwr

abbrev pub gdt_code_pl3 : ℕ
gdt_code_pl3 = flags_of 3 seg_code_exrd

abbrev pub gdt_data_pl3 : ℕ
gdt_data_pl3 = flags_of 3 seg_data_rdwr

pub record GdtDescriptor : Type 0 where
  pub base : ℕ
  pub limit : ℕ
  pub flags : ℕ

pub record GdtEntry : Type 0 where
  pub limit_low : ℕ
  pub base_low : ℕ
  pub base_middle : ℕ
  pub access : ℕ
  pub granularity : ℕ
  pub base_high : ℕ

-- The 64 bits that `create_descriptor` builds; the high half first.
pub descriptor_of : ℕ → ℕ → ℕ → ℕ
descriptor_of base limit flag =
    let d = bit_and limit 0x000F0000 in
    let d = bit_or d (bit_and (flag <<< 8) 0x00F0FF00) in
    let d = bit_or d (bit_and (base >>> 16) 0x000000FF) in
    let d = bit_or d (bit_and base 0xFF000000) in
    let d = u64 (d <<< 32) in
    let d = bit_or d (u64 (base <<< 16)) in bit_or d (bit_and limit 0x0000FFFF)

pub create_descriptor : ℕ → ℕ → ℕ → GdtEntry
create_descriptor base limit flag =
    let d = descriptor_of base limit flag in
    record {
      limit_low = bit_and d 0xFFFF;
      base_low = bit_and (d >>> 16) 0xFFFF;
      base_middle = bit_and (d >>> 32) 0xFF;
      access = bit_and (d >>> 40) 0xFF;
      granularity = bit_and (d >>> 48) 0xFF;
      base_high = bit_and (d >>> 56) 0xFF;
    }

abbrev pub limit_error : List ℕ
limit_error = codes "ERROR: GDT cannot encode limits larger than 0xFFFFF\n"

-- The eight bytes at `target`, and what was printed, if something was.
pub encode_gdt_entry : List ℕ → GdtDescriptor → List ℕ × Option Result
encode_gdt_entry target source =
    let t = set target 0 (bit_and source.limit 0xFF) in
    let t = set t 1 (bit_and (source.limit >>> 8) 0xFF) in
    let t = set t 6 (bit_and (source.limit >>> 16) 0x0F) in
    let t = set t 2 (bit_and source.base 0xFF) in
    let t = set t 3 (bit_and (source.base >>> 8) 0xFF) in
    let t = set t 4 (bit_and (source.base >>> 16) 0xFF) in
    let t = set t 7 (bit_and (source.base >>> 24) 0xFF) in
    let t = set t 5 (bit_and source.flags 0xFF) in
    let t = set t 6 (bit_or (get_or t 6 0) (bit_and (source.flags >>> 8) 0xF0)) in
    if ltb 0xFFFFF source.limit then (target, some (printf limit_error [] [])) else (t, none)

-- `gdt_entries`, and the pointer that `gdt_flush`, which is assembly, loads.
pub record Gdt : Type 0 where
  pub entries : List GdtEntry
  pub limit : ℕ
  pub base : ℕ
  pub loaded : Bool

-- `address` is where the table stands.
pub gdt_init : ℕ → Gdt → Gdt
gdt_init address g =
    let entries = set g.entries 0 (create_descriptor 0 0 0) in
    let entries = set entries 1 (create_descriptor 0 0xFFFFFFFF gdt_code_pl0) in
    let entries = set entries 2 (create_descriptor 0 0xFFFFFFFF gdt_data_pl0) in
    let entries = set entries 3 (create_descriptor 0 0xFFFFFFFF gdt_code_pl3) in
    let entries = set entries 4 (create_descriptor 0 0xFFFFFFFF gdt_data_pl3) in
    record { entries = entries; limit = u16 (8 * 5 - 1); base = address; loaded = true }
