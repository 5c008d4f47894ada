-- ===== src/Tests/Words.antt =====
-- Tagged words, image words and method lookup at concrete inputs.
use armliving_objects.Base.{◌+◌, ◌≡◌, refl, arith, true, ◌==◌, if◌then◌else◌, some, [], ◌∷◌}
use armliving_objects.Base.Int.{pos, negsuc, ◌+ℤ◌, ◌-ℤ◌}
use armliving_objects.Tagged.{
  tag_smallint, untag_smallint, fits_smallint, smallint_add, smallint_sub, tagged_nil,
}
use armliving_objects.Tagged.Smallint.{tag-untag, smallint_add-tag}
use armliving_objects.Slots.{
  convert_slot_offset_to_pointer, convert_slot_pointer_to_offset,
  checkpoint_convert_slot_pointer_to_offset, encode_durable_log_value, decode_durable_log_value,
  relocate, encode-eq-convert, offset-pointer_relocate,
}
use armliving_objects.Memory.{Memory}
use armliving_objects.Lookup.{class_lookup}
use armliving_objects.Lookup.Chain.{Chain, nearest, class_lookup-nearest}

tag-untag_example :
    (tag_smallint (untag_smallint 21) ≡ 21) × (fits_smallint (untag_smallint 21) ≡ true)
tag-untag_example = tag-untag 21 (omega arith) refl

smallint_add-tag_example :
    (smallint_add (tag_smallint (pos 3)) (tag_smallint (negsuc 4))
      ≡ tag_smallint (pos 3 +ℤ negsuc 4))
    × (smallint_sub (tag_smallint (pos 3)) (tag_smallint (negsuc 4))
        ≡ tag_smallint (pos 3 -ℤ negsuc 4))
smallint_add-tag_example = smallint_add-tag (pos 3) (negsuc 4)

encode-eq-convert_example :
    (encode_durable_log_value 4104 4096 8192 ≡ convert_slot_pointer_to_offset 4096 8192 4104)
    × (checkpoint_convert_slot_pointer_to_offset 4096 8192 4104
        ≡ convert_slot_pointer_to_offset 4096 8192 4104)
    × (decode_durable_log_value 4104 4096 4096 ≡ convert_slot_offset_to_pointer 4096 4096 4104)
encode-eq-convert_example = encode-eq-convert 4096 8192 4096 4104 (λ e. cc)

offset-pointer_relocate_example :
    convert_slot_offset_to_pointer 65536 4096
      (convert_slot_pointer_to_offset 4096 (4096 + 4096) 4104)
    ≡ relocate 4096 4096 65536 4104
offset-pointer_relocate_example =
    offset-pointer_relocate 4096 4096 65536 4104 (λ e. cc) refl refl (omega arith)
      (record { aligned = λ o l h. refl; foreign = λ o e. absurd (ground arith) })

-- A class at 64 with no methods, its superclass at 128, whose dictionary at 192 has selector 20.
abbrev classes : Memory
classes a =
    if a == 88
    then 128
    else if a == 96
    then tagged_nil
    else if a == 152
    then tagged_nil
    else if a == 160
    then 192
    else if a == 208
    then 2
    else if a == 216
    then 20
    else if a == 224
    then 320
    else 0

class_lookup-nearest_example :
    class_lookup classes 64 20 3 ≡ some (nearest classes 20 (64 ∷ 128 ∷ []))
class_lookup-nearest_example =
    class_lookup-nearest 20 3 (Chain.above refl (Chain.above refl (Chain.top refl))) (omega arith)

-- Every word is 8.
abbrev eights : Memory
eights a = 8
