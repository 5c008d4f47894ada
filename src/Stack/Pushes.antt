-- ===== src/Stack/Pushes.antt =====
-- Sequences of checked pushes.
use armliving_objects.Base.{
  ℕ, zero, suc, ◌+◌, ◌-◌, ◌*◌, ◌≤◌, ◌<◌, ◌≡◌, refl, ap, ◌∙◌, arith, ltb, List, [], ◌∷◌, length,
  le→not_ltb, some, get_elem?, Bool-cases, inl, inr, sym,
}
use armliving_objects.Memory.{write_self, write_ne, ok, trap, Machine, push}
use armliving_objects.Stack.{stack_push, push_all}

-- `vm'` is `vm` with the values pushed, the last one on top.
pub record PushedAll (values : List ℕ) (vm vm' : Machine) : Type 0 where
  pub sp_lem : vm'.sp + 8 * length values ≡ vm.sp
  pub fp_lem : vm'.fp ≡ vm.fp
  pub values_lem :
      (i : ℕ) → i < length values → get_elem? values i ≡ some (vm'.mem (vm.sp - 8 * (i + 1)))
  pub above : (a : ℕ) → vm.sp ≤ a → vm'.mem a ≡ vm.mem a

stack_push-ok :
    (stack_base v : ℕ) (vm : Machine)
    → stack_base + 8 ≤ vm.sp
    → stack_push stack_base v vm ≡ ok (push v (record vm { stack_limit_low = stack_base }))
unfolding stack_push
stack_push-ok base v vm room = rw (le→not_ltb _ _ room)

-- With room for all the values above the stack's base, the pushes succeed: value `i` stands `i + 1`
-- words below the old top, the stack pointer is at the last one, and no word at or above the old
-- top changes.
pub push_all-PushedAll :
    (stack_base : ℕ) (values : List ℕ) (vm : Machine)
    → stack_base + 8 * length values ≤ vm.sp
    → (vm' : Machine) × (push_all stack_base values vm ≡ ok vm') × PushedAll values vm vm'
unfolding push_all
push_all-PushedAll base [] vm room = (
  vm,
  refl,
  record {
    sp_lem = omega arith;
    fp_lem = refl;
    values_lem = λ i h. absurd (omega arith);
    above = λ a h. refl;
  },
)
push_all-PushedAll base (v ∷ vs) vm room =
    let vm1 = push v (record vm { stack_limit_low = base }) in
    let (vm', e, p) = push_all-PushedAll base vs vm1 (omega arith) in
    (
      vm',
      rw (stack_push-ok base v vm (omega arith)) e,
      record {
        sp_lem = omega (arith, p.sp_lem);
        fp_lem = p.fp_lem;
        values_lem = values vm' p;
        above = λ a h. p.above a (omega arith) ∙ write_ne vm.mem (vm.sp - 8) v a (omega arith);
      },
    )
  where
    values :
        (vm' : Machine)
        → PushedAll vs (push v (record vm { stack_limit_low = base })) vm'
        → (i : ℕ) → i < suc (length vs)
        → get_elem? (v ∷ vs) i ≡ some (vm'.mem (vm.sp - 8 * (i + 1)))
    values vm' p zero h =
        ap some (sym (p.above (vm.sp - 8) (omega arith) ∙ write_self vm.mem (vm.sp - 8) v))
    values vm' p (suc i) h =
        let e : vm.sp - 8 - 8 * (i + 1) ≡ vm.sp - 8 * (suc i + 1) = omega arith in
        p.values_lem i (omega arith) ∙ ap (λ a. some (vm'.mem a)) e

-- Without that room they trap.
pub push_all_trap :
    (stack_base : ℕ) (values : List ℕ) (vm : Machine)
    → vm.sp < stack_base + 8 * length values
    → stack_base ≤ vm.sp
    → push_all stack_base values vm ≡ trap
unfolding push_all stack_push
push_all_trap base [] vm full low = absurd (omega arith)
push_all_trap base (v ∷ vs) vm full low = elim (Bool-cases (ltb vm.sp (base + 8))) [
  | inl t ↦ rw (stack_push, t)
  | inr t ↦ rw (stack_push-ok base v vm (ground arith)) (
      push_all_trap base vs (push v (record vm { stack_limit_low = base })) (ground arith)
        (ground arith))
]
