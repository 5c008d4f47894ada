-- ===== src/Frame/Restore.antt =====
-- What the copying loops of `activate_context` write: the temporaries, the operand stack, and the
-- flags and context words.
use armliving_objects.Base.{
  ℕ, zero, suc, ◌+◌, ◌-◌, ◌*◌, ◌/◌, ◌%◌, ◌^◌, ◌≤◌, ◌<◌, ◌≡◌, refl, ap, ◌∙◌, arith, ◌⊎◌, inl, inr,
  bit_and, bit_or, fields-bit_or, bit_or_split, bit_and_mask, bit_and_split, bit_and-zero,
}
use armliving_objects.Memory.{write, write_self, write_ne, Machine, obj_field}
use armliving_objects.Frame.{restore_temps, copy_words, temp_slot, context_frame_flags}
use armliving_objects.Frame.Layout.{Clear}

-- Only words from `lo` up to below `hi` differ; the registers are the same.
pub record Wrote (lo hi : ℕ) (before after : Machine) : Type 0 where
  pub sp_lem : after.sp ≡ before.sp
  pub fp_lem : after.fp ≡ before.fp
  pub limit_lem : after.stack_limit_low ≡ before.stack_limit_low
  pub outside : (a : ℕ) → (a < lo) ⊎ (hi ≤ a) → after.mem a ≡ before.mem a

pub Wrote-refl : (lo hi : ℕ) (vm : Machine) → Wrote lo hi vm vm
Wrote-refl lo hi vm = record {
  sp_lem = refl;
  fp_lem = refl;
  limit_lem = refl;
  outside = λ a h. refl;
}

pub write-Wrote :
    (lo hi a v : ℕ) (vm : Machine)
    → lo ≤ a
    → a < hi
    → Wrote lo hi vm (record vm { mem = write vm.mem a v })
write-Wrote lo hi a v vm h k = record {
  sp_lem = refl;
  fp_lem = refl;
  limit_lem = refl;
  outside = λ b o. write_ne vm.mem a v b (omega arith);
}

pub Wrote-trans :
    {lo1 hi1 lo2 hi2 : ℕ} {x y z : Machine} (lo hi : ℕ)
    → lo ≤ lo1
    → hi1 ≤ hi
    → lo ≤ lo2
    → hi2 ≤ hi
    → Wrote lo1 hi1 x y
    → Wrote lo2 hi2 y z
    → Wrote lo hi x z
Wrote-trans lo hi a b c d p q = record {
  sp_lem = q.sp_lem ∙ p.sp_lem;
  fp_lem = q.fp_lem ∙ p.fp_lem;
  limit_lem = q.limit_lem ∙ p.limit_lem;
  outside = λ w o. q.outside w (ground arith) ∙ p.outside w (ground arith);
}

pub Wrote-field :
    {lo hi : ℕ} {x y : Machine} (obj size f : ℕ)
    → Wrote lo hi x y
    → Clear lo hi obj size
    → f < size
    → obj_field y.mem obj f ≡ obj_field x.mem obj f
Wrote-field obj size f w (inl h) k = w.outside _ (inr (omega arith))
Wrote-field obj size f w (inr h) k = w.outside _ (inl (omega arith))

pub restore_temps-Wrote :
    (n obj first index : ℕ) (vm : Machine)
    → 8 * (4 + index + n) ≤ vm.fp
    → Wrote
        (vm.fp - 8 * (4 + index + n))
        (vm.fp - 8 * (4 + index))
        vm
        (restore_temps obj first index n vm)
unfolding restore_temps
restore_temps-Wrote zero obj first index vm h = Wrote-refl _ _ vm
restore_temps-Wrote (suc n) obj first index vm h =
    Wrote-trans _ _ (omega arith) (omega arith) (omega arith) (omega arith)
      (write-Wrote (vm.fp - 8 * (5 + index)) (vm.fp - 8 * (4 + index)) (temp_slot vm.fp index) _ vm
        (omega arith) (omega arith))
      (restore_temps-Wrote n obj (first + 1) (index + 1) _ (omega arith))

pub restore_temps-field :
    (n obj first index size : ℕ) (vm : Machine) (i : ℕ)
    → 8 * (4 + index + n) ≤ vm.fp
    → Clear (vm.fp - 8 * (4 + index + n)) (vm.fp - 8 * (4 + index)) obj size
    → first + n ≤ size
    → i < n
    → (restore_temps obj first index n vm).mem (temp_slot vm.fp (index + i))
      ≡ obj_field vm.mem obj (first + i)
unfolding restore_temps
restore_temps-field zero obj first index size vm i h c s k = absurd (omega arith)
restore_temps-field (suc n) obj first index size vm zero h c s k =
    let v = obj_field vm.mem obj first in
    let vm' = record vm { mem = write vm.mem (temp_slot vm.fp index) v } in
    let w = restore_temps-Wrote n obj (first + 1) (index + 1) vm' (omega arith) in
    w.outside _ (inr (omega arith)) ∙ ground (arith, write_self vm.mem (temp_slot vm.fp index) v)
restore_temps-field (suc n) obj first index size vm (suc i) h c s k =
    let v = obj_field vm.mem obj first in
    let vm' = record vm { mem = write vm.mem (temp_slot vm.fp index) v } in
    let w : Wrote (vm.fp - 8 * (5 + index)) (vm.fp - 8 * (4 + index)) vm vm' =
      write-Wrote _ _ (temp_slot vm.fp index) v vm (omega arith) (omega arith) in
    let same : obj_field vm'.mem obj (first + 1 + i) ≡ obj_field vm.mem obj (first + 1 + i) =
      Wrote-field obj size (first + 1 + i) w (ground arith) (omega arith) in
    let e1 : index + suc i ≡ index + 1 + i = omega arith in
    let e2 : first + 1 + i ≡ first + suc i = omega arith in
    ap (λ j. (restore_temps obj (first + 1) (index + 1) n vm').mem (temp_slot vm.fp j)) e1
    ∙ restore_temps-field n obj (first + 1) (index + 1) size vm' i (omega arith) (ground arith)
        (omega arith) (omega arith)
    ∙ same
    ∙ ap (obj_field vm.mem obj) e2

pub copy_words-Wrote :
    (n obj first to : ℕ) (vm : Machine) → Wrote to (to + 8 * n) vm (copy_words obj first to n vm)
unfolding copy_words
copy_words-Wrote zero obj first to vm = Wrote-refl _ _ vm
copy_words-Wrote (suc n) obj first to vm =
    Wrote-trans _ _ (omega arith) (omega arith) (omega arith) (omega arith)
      (write-Wrote to (to + 8) to _ vm (omega arith) (omega arith))
      (copy_words-Wrote n obj (first + 1) (to + 8) _)

pub copy_words-field :
    (n obj first to size : ℕ) (vm : Machine) (i : ℕ)
    → Clear to (to + 8 * n) obj size
    → first + n ≤ size
    → i < n
    → (copy_words obj first to n vm).mem (to + 8 * i) ≡ obj_field vm.mem obj (first + i)
unfolding copy_words
copy_words-field zero obj first to size vm i c s k = absurd (omega arith)
copy_words-field (suc n) obj first to size vm zero c s k =
    let v = obj_field vm.mem obj first in
    let vm' = record vm { mem = write vm.mem to v } in
    let w = copy_words-Wrote n obj (first + 1) (to + 8) vm' in
    w.outside _ (inl (omega arith)) ∙ ground (arith, write_self vm.mem to v)
copy_words-field (suc n) obj first to size vm (suc i) c s k =
    let v = obj_field vm.mem obj first in
    let vm' = record vm { mem = write vm.mem to v } in
    let w : Wrote to (to + 8) vm vm' = write-Wrote _ _ to v vm (omega arith) (omega arith) in
    let same : obj_field vm'.mem obj (first + 1 + i) ≡ obj_field vm.mem obj (first + 1 + i) =
      Wrote-field obj size (first + 1 + i) w (ground arith) (omega arith) in
    let e1 : to + 8 * suc i ≡ to + 8 + 8 * i = omega arith in
    let e2 : first + 1 + i ≡ first + suc i = omega arith in
    ap (λ j. (copy_words obj (first + 1) (to + 8) n vm').mem j) e1
    ∙ copy_words-field n obj (first + 1) (to + 8) size vm' i (ground arith) (omega arith)
        (omega arith)
    ∙ same
    ∙ ap (obj_field vm.mem obj) e2

-- The block byte of the saved flags.
abbrev pub block_byte : ℕ → ℕ
block_byte flags = flags / 2 ^ 16 % 2 ^ 8

mask_block_byte : (s : ℕ) → bit_and s (0xFF * 2 ^ 16) ≡ block_byte s * 2 ^ 16
mask_block_byte s =
    let e : s / 2 ^ 16 * 2 ^ 16 + s % 2 ^ 16 ≡ s = omega arith in
    rw (← e) (
      bit_and_split 16 (s / 2 ^ 16) (s % 2 ^ 16) 0xFF 0 (omega arith) (omega arith)
      ∙ ground (arith, bit_and_mask 8 (s / 2 ^ 16), bit_and-zero (s % 2 ^ 16)))

-- On the flags of a fresh frame: the argument count stays, the context bit is set, the closure bit
-- is clear, and the block byte is that of the saved flags.
pub context_frame_flags_sum :
    (num_args saved_flags : ℕ)
    → num_args < 256
    → context_frame_flags (num_args * 256) saved_flags
      ≡ block_byte saved_flags * 2 ^ 16 + num_args * 256 + 1
unfolding context_frame_flags
context_frame_flags_sum num_args s h =
    let b = block_byte s in
    let e1 : bit_or 1 (b * 2 ^ 16) ≡ b * 256 * 2 ^ 8 + 1 =
      fields-bit_or 16 b 1 (omega arith) ∙ omega arith in
    let e2 : bit_or (num_args * 2 ^ 8 + 0) (b * 256 * 2 ^ 8 + 1) ≡ b * 2 ^ 16 + num_args * 256 + 1 =
      bit_or_split 8 num_args 0 (b * 256) 1 (omega arith) (omega arith)
      ∙ omega (arith, fields-bit_or 8 b num_args h) in
    let e3 : num_args * 256 ≡ num_args * 2 ^ 8 + 0 = omega arith in
    let y : ℕ = b * 2 ^ 14 + num_args * 64 in
    let e4 : b * 2 ^ 16 + num_args * 256 + 1 ≡ y * 2 ^ 2 + 1 = omega arith in
    rw (mask_block_byte s, e1, e3, e2, e4)
      (bit_and_split 2 y 1 (2 ^ 62 - 1) 1 (omega arith) (omega arith)
        ∙ omega (arith, bit_and_mask 62 y))
