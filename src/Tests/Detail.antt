-- ===== src/Tests/Detail.antt =====
-- Relative addresses, alignment and bytes at concrete values.
use memwrapper.Base.{◌+◌, ◌%◌, ◌≤◌, ◌<◌, ◌≡◌, refl, [], ◌∷◌, arith}
use memwrapper.Detail.{get_relative_address, restore_absolute_address, align_value, byteof}
use memwrapper.Detail.Addresses.{get-restore_absolute_address, align_value-least}

-- A jump back over 16 bytes.
backwards : get_relative_address 0x401000 0x401010 5 ≡ 0xffff_ffeb
unfolding get_relative_address
backwards = refl

little_endian : byteof 4 0x12345678 ≡ 0x78 ∷ 0x56 ∷ 0x34 ∷ 0x12 ∷ []
unfolding byteof
little_endian = refl

-- Near the top of the words the result wraps to 0.
align_wraps : align_value 0xffff_f001 4096 ≡ 0
unfolding align_value
align_wraps = refl

get-restore_absolute_address_example :
    get_relative_address (restore_absolute_address 0xffff_ffeb 0x401010 5) 0x401010 5 ≡ 0xffff_ffeb
get-restore_absolute_address_example =
    get-restore_absolute_address 0xffff_ffeb 0x401010 5 (omega arith)

align_value-least_example :
    (align_value 5000 4096 % 4096 ≡ 0)
    × (5000 ≤ align_value 5000 4096)
    × (align_value 5000 4096 < 5000 + 4096)
align_value-least_example = align_value-least 5000 4096 (omega arith) (omega arith)
