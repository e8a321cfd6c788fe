-- ===== src/Gdt/Tests.antt =====
-- Descriptors.
use simply_os.Base.{◌≡◌, arith, [], ◌∷◌, ◌++◌, false}
use simply_os.Gdt.{Gdt, GdtDescriptor, GdtEntry, create_descriptor, encode_gdt_entry}
use simply_os.Gdt.Encode.{
  Encodes, encode_gdt_entry-Encodes, encode_gdt_entry-create_descriptor, create_descriptor-fields,
  bytes,
}
use simply_os.Gdt.Segments.{null_entry}

abbrev high_base : GdtEntry
high_base = record {
  limit_low = 0x5678;
  base_low = 0x4321;
  base_middle = 0x65;
  access = 0xFA;
  granularity = 0xC4;
  base_high = 0x78;
}

-- A base above 2^24: its top byte is also in the access byte, which is 0x9A | 0x78.
create_descriptor-fields_example : create_descriptor 0x78654321 0x45678 0xC09A ≡ high_base
create_descriptor-fields_example =
    create_descriptor-fields 0x78654321 0x45678 0xC09A (omega arith) (omega arith)

abbrev too_large : GdtDescriptor
too_large = record { base = 0; limit = 0x100000; flags = 0xC09A }

encode_gdt_entry-Encodes_example :
    Encodes too_large
      (1 ∷ 2 ∷ 3 ∷ 4 ∷ 5 ∷ 6 ∷ 7 ∷ 8 ∷ [])
      (9 ∷ [])
      (encode_gdt_entry (1 ∷ 2 ∷ 3 ∷ 4 ∷ 5 ∷ 6 ∷ 7 ∷ 8 ∷ 9 ∷ []) too_large)
encode_gdt_entry-Encodes_example =
    encode_gdt_entry-Encodes too_large (omega arith) (omega arith) 1 2 3 4 5 6 7 8 (9 ∷ [])

abbrev video : GdtDescriptor
video = record { base = 0xB8000; limit = 0xF9F; flags = 0x4092 }

encode_gdt_entry-create_descriptor_example :
    (encode_gdt_entry (0 ∷ 0 ∷ 0 ∷ 0 ∷ 0 ∷ 0 ∷ 0 ∷ 0 ∷ []) video).0
    ≡ bytes (create_descriptor 0xB8000 0xF9F 0x4092) ++ []
encode_gdt_entry-create_descriptor_example =
    encode_gdt_entry-create_descriptor video (omega arith) (omega arith) 0 0 0 0 0 0 0 0 []
      (omega arith) (omega arith)

abbrev blank : Gdt
blank = record {
  entries = null_entry ∷ null_entry ∷ null_entry ∷ null_entry ∷ null_entry ∷ [];
  limit = 0;
  base = 0;
  loaded = false;
}
