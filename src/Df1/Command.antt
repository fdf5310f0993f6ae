-- ===== src/Df1/Command.antt =====
-- The commands of df1.c: read_A2, write_AA and write_AB, and the reads and writes of integers,
-- booleans and floats that use them. A value in memory is the function from an offset to its byte.
pub mod Exchange
pub mod Reads
pub mod Writes
use tux_plc.Base.{
  ℕ, ◌+◌, ◌*◌, ◌/◌, ◌%◌, ◌^◌, Bool, true, false, not, ◌&&◌, List, [], ◌∷◌, get_or, ◌==◌, ltb,
  if◌then◌else◌,
}
use tux_plc.Base.Bits.{u16, low_byte, high_byte, word_of}
use tux_plc.Base.Int.{ℤ, pos, negsuc, ◌==ℤ◌}
use tux_plc.Df1.{dest, source, slc, success, error_tns_mismatch, Msg, zero_msg, Address}
use tux_plc.Df1.Addressing.{calc_address}
use tux_plc.Df1.Buffers.{memcpy}
use tux_plc.Df1.Port.{Port, done, overrun, Cmd, pure, ◌>>=◌, ◌>>◌}
use tux_plc.Df1.Receive.{rcv_df1}
use tux_plc.Df1.Send.{send_df1}

-- ++tns, of the word tns.
unfoldable pub next_tns : Cmd ℕ
next_tns p = done (u16 (p.tns + 1)) (record p { tns = u16 (p.tns + 1) })

-- The six bytes of a TCmd.
abbrev pub cmd_bytes : ℕ → Address → ℕ → List ℕ
cmd_bytes fnc a s_ele = fnc ∷ a.size ∷ a.file_number ∷ a.file_type ∷ a.ele_number ∷ s_ele ∷ []

-- A message with the command 0x0F and the data in front.
abbrev pub request : ℕ → (ℕ → ℕ) → ℕ → Msg
request tns body size = record {
  dst = dest;
  src = source;
  cmd = 0x0f;
  sts = 0;
  tns = tns;
  body = body;
  size = size;
}

-- The last part of the three functions: the checks on what came back.
unfoldable pub check_reply : Msg → ℤ × Msg → ℤ × Msg
check_reply sent (e, r) =
    if not (e ==ℤ success)
    then (e, r)
    else if not (r.tns == sent.tns)
    then (error_tns_mismatch, r)
    else if not (r.sts == 0)
    then (pos r.sts, r)
    else (success, r)

-- send_DF1, then rcv_DF1, then the checks.
unfoldable pub exchange : ℕ → Msg → Cmd (ℤ × Msg)
exchange fuel sent = do
  e ← send_df1 fuel sent
  if e ==ℤ success
      then (do r ← rcv_df1 fuel zero_msg; pure (check_reply sent r))
      else pure (e, zero_msg)

unfoldable pub read_message : ℕ → Address → Msg
read_message tns a = request tns (λ i. get_or (cmd_bytes 0xa2 a a.s_ele_number) i 0) 6

-- bzero(value,size) of the memory from `value` on.
abbrev pub bzeroed : (ℕ → ℕ) → ℕ → ℕ → ℕ
bzeroed memory size i = if ltb i size then 0 else memory i

-- The error, and the memory from `value` on: `size` bytes are cleared, then address.size bytes are
-- written over.
unfoldable pub read_a2 : ℕ → Address → (ℕ → ℕ) → ℕ → Cmd (ℤ × (ℕ → ℕ))
read_a2 fuel a memory size = do
  tns ← next_tns
  (e, r) ← exchange fuel (read_message tns a)
  pure (
    e,
    if e ==ℤ success then memcpy (bzeroed memory size) 0 r.body a.size else bzeroed memory size,
  )

-- read_A2 into a variable of `size` bytes of the caller's.
unfoldable pub read_variable : ℕ → Address → ℕ → Cmd (ℤ × (ℕ → ℕ))
read_variable fuel a size = do
  (e, v) ← read_a2 fuel a (λ _. 0) size
  if (e ==ℤ success) && ltb size a.size then (λ _. overrun) else pure (e, v)

unfoldable pub write_message : ℕ → Address → (ℕ → ℕ) → Msg
write_message tns a value =
    request tns (memcpy (λ i. get_or (cmd_bytes 0xaa a a.s_ele_number) i 0) 6 value a.size)
      (6 + a.size)

unfoldable pub write_aa : ℕ → Address → (ℕ → ℕ) → Cmd ℤ
write_aa fuel a value = do
  tns ← next_tns
  (e, r) ← exchange fuel (write_message tns a value)
  pure e

-- A TCmd4: the mask and the value stand behind the six bytes.
unfoldable pub bit_message : ℕ → Address → ℕ → ℕ → Msg
bit_message tns a value mask =
    request tns
      (λ i.
        get_or
          (0xab
            ∷ a.size
            ∷ a.file_number
            ∷ a.file_type
            ∷ a.ele_number
            ∷ 0
            ∷ low_byte mask
            ∷ high_byte mask
            ∷ low_byte value
            ∷ high_byte value
            ∷ [])
          i 0)
      10

unfoldable pub write_ab : ℕ → Address → ℕ → ℕ → Cmd ℤ
write_ab fuel a value mask = do
  tns ← next_tns
  (e, r) ← exchange fuel (bit_message tns a value mask)
  pure e

-- calc_address returns SUCCESS always, so for another type of PLC nothing is read and the result
-- is SUCCESS with the value 0.
unfoldable pub read_integer : ℕ → ℕ → List ℕ → Cmd (ℤ × ℕ)
read_integer fuel plctype straddress =
    if plctype == slc
    then (do (e, v) ← read_variable fuel (calc_address straddress) 2; pure (e, word_of (v 0) (v 1)))
    else pure (success, 0)

-- The float's four bytes.
unfoldable pub read_float : ℕ → ℕ → List ℕ → Cmd (ℤ × (ℕ → ℕ))
read_float fuel plctype straddress =
    if plctype == slc
    then read_variable fuel (calc_address straddress) 4
    else pure (success, λ _. 0)

abbrev pub int_of : (ℕ → ℕ) → ℕ
int_of v = v 0 + 256 * (v 1 + 256 * (v 2 + 256 * v 3))

-- A shift by 32 or more is undefined in C.
unfoldable pub read_boolean : ℕ → ℕ → List ℕ → Cmd (ℤ × ℕ)
read_boolean fuel plctype straddress =
    let a = calc_address straddress in
    if plctype == slc
    then (do
      (e, v) ← read_variable fuel (record a { s_ele_number = 0 }) 4
      pure (e, int_of v / 2 ^ a.s_ele_number % 2))
    else pure (success, 0)

-- write_AA of a variable of `size` bytes of the caller's.
unfoldable pub write_variable : ℕ → Address → (ℕ → ℕ) → ℕ → Cmd ℤ
write_variable fuel a value size = if ltb size a.size then (λ _. overrun) else write_aa fuel a value

unfoldable pub write_integer : ℕ → ℕ → List ℕ → ℕ → Cmd ℤ
write_integer fuel plctype straddress value =
    if plctype == slc
    then write_variable fuel (calc_address straddress)
        (λ i. get_or (low_byte value ∷ high_byte value ∷ []) i 0) 2
    else pure success

unfoldable pub write_float : ℕ → ℕ → List ℕ → (ℕ → ℕ) → Cmd ℤ
write_float fuel plctype straddress value =
    if plctype == slc then write_variable fuel (calc_address straddress) value 4 else pure success

-- 0x0001<<posit as a word.
abbrev pub bit_mask : ℕ → ℕ
bit_mask posit = u16 (2 ^ posit)

unfoldable pub write_boolean : ℕ → ℕ → List ℕ → ℤ → Cmd ℤ
write_boolean fuel plctype straddress value =
    let a = calc_address straddress in
    let mask = bit_mask a.s_ele_number in
    if plctype == slc
    then write_ab fuel a (if value ==ℤ pos 0 then 0 else mask) mask
    else pure success
