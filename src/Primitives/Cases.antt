-- ===== src/Primitives/Cases.antt =====
-- Character primitives: code points, and upper and lower case.
use armliving_objects.Base.{
  ℕ, ◌+◌, ◌-◌, ◌*◌, ◌^◌, ◌%◌, ◌<◌, ◌≡◌, refl, ap, arith, Bool, true, false, ◌&&◌, leb,
  if◌then◌else◌, u64, bit_or_fields, ◌>>>◌, [],
}
use armliving_objects.Base.Int.{pos}
use armliving_objects.Tagged.{Oop, tag_smallint, fits_smallint, is_character}
use armliving_objects.Tagged.Smallint.{tag_smallint-is_smallint, untag-tag}
use armliving_objects.Memory.{write_self, ok, Machine}
use armliving_objects.Primitives.{
  succeeded, prim_char_value, prim_as_character, prim_char_uppercase, prim_char_lowercase,
  as_character, replace_receiver, answer, try_character_primitive,
}

as_character_sum : (c : ℕ) → c < 2 ^ 60 → as_character c ≡ c * 16 + 15
as_character_sum c h =
    let e : u64 (c * 16) ≡ c * 2 ^ 4 = omega arith in rw e (bit_or_fields 4 c 15 (omega arith))

-- The primitive answers `word`, writes no output and succeeds.
abbrev pub Gives : ℕ → Machine → Oop → Type 0
Gives primitive vm word =
    try_character_primitive primitive 0 vm ≡ ok (replace_receiver word vm, [], succeeded)

-- The word of a code point in upper case, and in lower case.
abbrev pub upper : ℕ → ℕ
upper c = if leb 97 c && leb c 122 then c - 32 else c

abbrev pub lower : ℕ → ℕ
lower c = if leb 65 c && leb c 90 then c + 32 else c

as_character-is_character : (c : ℕ) → c < 2 ^ 60 → is_character (as_character c) ≡ true
as_character-is_character c h = let e = as_character_sum c h in ground arith

code_point_lem : (c : ℕ) → c < 2 ^ 60 → as_character c >>> 4 ≡ c
code_point_lem c h = let e = as_character_sum c h in omega arith

if-as_character :
    (b : Bool) (x y : ℕ)
    → (if b then as_character x else as_character y) ≡ as_character (if b then x else y)
if-as_character true x y = refl
if-as_character false x y = refl

char_value_lem :
    (c : ℕ) (vm : Machine)
    → c < 2 ^ 60
    → vm.mem vm.sp ≡ as_character c
    → Gives prim_char_value vm (tag_smallint (pos c))
unfolding try_character_primitive
char_value_lem c vm h r = rw (r, as_character-is_character c h, code_point_lem c h) refl

char_uppercase_lem :
    (c : ℕ) (vm : Machine)
    → c < 2 ^ 60
    → vm.mem vm.sp ≡ as_character c
    → Gives prim_char_uppercase vm (as_character (upper c))
unfolding try_character_primitive
char_uppercase_lem c vm h r =
    rw (r, as_character-is_character c h, code_point_lem c h)
      (ap (λ word. answer word vm) (if-as_character (leb 97 c && leb c 122) (c - 32) c))

char_lowercase_lem :
    (c : ℕ) (vm : Machine)
    → c < 2 ^ 60
    → vm.mem vm.sp ≡ as_character c
    → Gives prim_char_lowercase vm (as_character (lower c))
unfolding try_character_primitive
char_lowercase_lem c vm h r =
    rw (r, as_character-is_character c h, code_point_lem c h)
      (ap (λ word. answer word vm) (if-as_character (leb 65 c && leb c 90) (c + 32) c))

as_character_lem :
    (n : ℕ) (vm : Machine)
    → n < 2 ^ 60
    → vm.mem vm.sp ≡ tag_smallint (pos n)
    → Gives prim_as_character vm (as_character n)
unfolding try_character_primitive fits_smallint
as_character_lem n vm h r =
    let fits : fits_smallint (pos n) ≡ true = ground arith in
    let small : n % 2 ^ 64 ≡ n = omega arith in
    rw (r, (tag_smallint-is_smallint (pos n)).0, untag-tag (pos n) fits, small) refl

-- On a small integer below 2^60, the primitive `asCharacter` answers a character, and the primitive
-- `value` on that answers the integer again.
pub char_value-as_character :
    (n : ℕ) (vm : Machine)
    → n < 2 ^ 60
    → vm.mem vm.sp ≡ tag_smallint (pos n)
    → Gives prim_as_character vm (as_character n)
      × (is_character (as_character n) ≡ true)
      × Gives prim_char_value (replace_receiver (as_character n) vm) (tag_smallint (pos n))
char_value-as_character n vm h r = (
  as_character_lem n vm h r,
  as_character-is_character n h,
  char_value_lem n (replace_receiver (as_character n) vm) h
      (write_self vm.mem vm.sp (as_character n)),
)

-- On a character below 2^60, the case primitives change the ASCII letters and nothing else, and lower
-- case behind upper case is lower case.
pub char_lowercase-uppercase :
    (c : ℕ) (vm : Machine)
    → c < 2 ^ 60
    → vm.mem vm.sp ≡ as_character c
    → Gives prim_char_uppercase vm (as_character (upper c))
      × Gives prim_char_lowercase vm (as_character (lower c))
      × Gives prim_char_lowercase
          (replace_receiver (as_character (upper c)) vm)
          (as_character (lower c))
char_lowercase-uppercase c vm h r =
    let same : lower (upper c) ≡ lower c = ground arith in
    let small : upper c < 2 ^ 60 = ground arith in
    let uppered = replace_receiver (as_character (upper c)) vm in
    let both : Gives prim_char_lowercase uppered (as_character (lower (upper c))) =
      char_lowercase_lem (upper c) uppered small
        (write_self vm.mem vm.sp (as_character (upper c))) in
    (char_uppercase_lem c vm h r, char_lowercase_lem c vm h r, rw (← same) both)
