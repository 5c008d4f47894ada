-- ===== src/Tests/Answers.antt =====
-- Primitives at concrete inputs.
use armliving_objects.Base.{ℕ, refl, ◌==◌, if◌then◌else◌}
use armliving_objects.Base.Int.{pos, negsuc, ◌*ℤ◌}
use armliving_objects.Tagged.{tag_smallint, fits_smallint}
use armliving_objects.Memory.{Machine}
use armliving_objects.Primitives.{prim_smallint_mul, try_smallint_primitive}
use armliving_objects.Primitives.Integers.{Arithmetic, Answers, try_smallint_primitive-Answers}

-- The argument 5 is on top of the receiver -3; or a word is on top.
abbrev two_integers : Machine
two_integers = record {
  mem = λ a. if a == 8192 then 21 else tag_smallint (negsuc 2);
  sp = 8192;
  fp = 8400;
  ip = 64;
  stack_limit_low = 4096;
}

abbrev on_top : ℕ → Machine
on_top word = record { mem = λ a. word; sp = 8192; fp = 8400; ip = 64; stack_limit_low = 4096 }

try_smallint_primitive-Answers_example :
    Answers
      (negsuc 2 *ℤ pos 5)
      two_integers
      (try_smallint_primitive prim_smallint_mul 1 two_integers)
unfolding fits_smallint tag_smallint
try_smallint_primitive-Answers_example =
    try_smallint_primitive-Answers (negsuc 2) (pos 5) two_integers Arithmetic.mul refl refl refl
      refl
