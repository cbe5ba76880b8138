-- ===== src/Uuid/Tests.antt =====
-- Texts of UUIDs, read and written.
use Prim.Native.String.{String}
use Prim.Native.Char.{code}
use nkos.Common.{ℕ, List, [], ◌∷◌, ◌≡◌, refl, arith, replicate}
use nkos.Uuid.{
  digit_value, put_nibble, einval, parsed, parse_from, uuid_parse, nibble_digit, unparse_from,
  uuid_unparse,
}
use nkos.Uuid.RoundTrip.{uuid_parse-unparse}

abbrev text_of : String → List ℕ
text_of String.[] = []
text_of (String.◌∷◌ letter more) = code letter ∷ text_of more

abbrev root_disk : List ℕ
root_disk =
    0x12 ∷ 0x34 ∷ 0x56 ∷ 0x78 ∷ 0x9a ∷ 0xbc ∷ 0xde ∷ 0xf0 ∷ 0 ∷ 1 ∷ 2 ∷ 3 ∷ 4 ∷ 5 ∷ 6 ∷ 0xff ∷ []

root_disk-text : uuid_unparse root_disk ≡ text_of "12345678-9abc-def0-0001-0203040506ff"
unfolding uuid_unparse unparse_from nibble_digit
root_disk-text = refl

-- Upper case is refused, and what was read before it stays in the uuid.
upper_case :
    uuid_parse (text_of "1F345678-9abc-def0-0001-0203040506ff") ≡ einval (0x10 ∷ replicate 15 0)
unfolding uuid_parse parse_from put_nibble digit_value
upper_case = refl

uuid_parse-unparse_example : uuid_parse (uuid_unparse root_disk) ≡ parsed root_disk
uuid_parse-unparse_example = uuid_parse-unparse root_disk refl (omega arith)
