-- ===== src/Tuxeip/Examples/Addresses.antt =====
-- The addresses of PLC.c at concrete texts.
use tux_plc.Base.{◌≡◌, refl, inl, [], ◌∷◌, ◌++◌, arith}
use tux_plc.Base.Memory.{laid}
use tux_plc.Modbus.Words.{word_row}
use tux_plc.Tuxeip.Requests.{LogicalBinaryAddress, slcrw_row, build_plc_read_data_request}
use tux_plc.Tuxeip.Address.{
  built, fault, build_logical_binary_address, lba_loop, number_read, name_read,
}
use tux_plc.Tuxeip.Address.Reads.{element_lba, build_logical_binary_address-element}

build_logical_binary_address-element_example :
    (a : LogicalBinaryAddress) × (build_logical_binary_address
        (b'N' ∷ b'1' ∷ b'2' ∷ b':' ∷ b'3' ∷ [])
      ≡ built a)
    × (a.mask ≡ 0)
    × (build_plc_read_data_request 300 a 2 ≡ slcrw_row 0x0F 300 0x68 2 ++ (6 ∷ 12 ∷ 3 ∷ word_row 2))
build_logical_binary_address-element_example =
    build_logical_binary_address-element b'N' b'1' (b'2' ∷ []) b'3' [] 300 2 (inl refl)
      ((omega arith, omega arith), omega arith, ((omega arith, omega arith), tt))
      ((omega arith, omega arith), omega arith, tt) (omega arith) (omega arith)

-- The bit 2 of the element 3 of the file 12.
bit_address :
    build_logical_binary_address (b'N' ∷ b'1' ∷ b'2' ∷ b':' ∷ b'3' ∷ b'/' ∷ b'2' ∷ [])
    ≡ built (record { size = 3; address = (element_lba 12 3).address; mask = 4 })
unfolding build_logical_binary_address lba_loop number_read name_read laid
bit_address = refl

-- Ten numbers do not fit the array.
full_array :
    build_logical_binary_address (
      b'1' ∷ b':' ∷ b'1' ∷ b':' ∷ b'1' ∷ b':' ∷ b'1' ∷ b':' ∷ b'1' ∷ b':' ∷ b'1' ∷ b':' ∷ b'1'
      ∷ b':' ∷ b'1' ∷ b':' ∷ b'1' ∷ b':' ∷ b'1' ∷ [])
    ≡ fault
unfolding build_logical_binary_address lba_loop number_read name_read laid
full_array = refl
