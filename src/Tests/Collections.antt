-- ===== src/Tests/Collections.antt =====
-- Collections at concrete inputs.
use armliving_objects.Base.{
  ℕ, ◌+◌, ◌≡◌, refl, ◌==◌, if◌then◌else◌, true, none, some, [], ◌∷◌, length,
}
use armliving_objects.ObjectMemory.{Heap, gc_is_registered_context}
use armliving_objects.Collection.{
  Roots, root_capacity, collect_roots, restore_roots, has_gc_context_layout, gc_context,
  exchange_spaces,
}
use armliving_objects.Collection.Moved.{
  move_words, move_roots, length-collect_roots, restore-collect_roots,
}
use armliving_objects.Collection.Spaces.{exchange_spaces-has_layout}

-- Two stack slots, one handler, one ensure frame, and a transaction with one write inside another
-- without a log.
abbrev some_roots : Roots
some_roots = record {
  stack = 65536 ∷ 65600 ∷ [];
  handlers = record { exception_class = 66000; handler_block = 66100; signaled_exception = 3 } ∷ [];
  ensures = record { signaled_class = 66200; signaled_payload = 66300 } ∷ [];
  logs = none ∷ some (record { object = 65600; field_index = 2; value = 5 } ∷ []) ∷ [];
  class_table = 70000;
}

abbrev later : ℕ → ℕ
later address = address + 100000

length-collect_roots_example : length (collect_roots some_roots) ≡ root_capacity some_roots
length-collect_roots_example = length-collect_roots some_roots

restore-collect_roots_example :
    restore_roots some_roots (move_words later (collect_roots some_roots))
    ≡ move_roots later some_roots
restore-collect_roots_example = restore-collect_roots later some_roots

-- A registered context at 256 with spaces of 4096 bytes, the to-space filled by a collection.
abbrev two_spaces : Heap
two_spaces = record {
  mem = λ a.
      if a == 256
      then 69632
      else if a == 264
      then 69632
      else if a == 272
      then 69700
      else if a == 280
      then 73728
      else if a == 288
      then 65536
      else if a == 296
      then 69632
      else if a == 304
      then 4096
      else 0;
  gc_contexts = 256 ∷ [];
  oms = [];
}

layout_lem : has_gc_context_layout 256 two_spaces ≡ true
unfolding has_gc_context_layout gc_is_registered_context gc_context
layout_lem = refl

exchange_spaces-has_layout_example :
    (has_gc_context_layout 256 (record two_spaces { mem = exchange_spaces 256 two_spaces.mem })
      ≡ true)
    × (exchange_spaces 256 two_spaces.mem 256 ≡ two_spaces.mem (256 + 16))
    × (exchange_spaces 256 two_spaces.mem (256 + 32) ≡ two_spaces.mem (256 + 40))
    × (exchange_spaces 256 two_spaces.mem (256 + 40) ≡ two_spaces.mem (256 + 32))
    × (exchange_spaces 256 two_spaces.mem (256 + 16) ≡ two_spaces.mem (256 + 32))
exchange_spaces-has_layout_example = exchange_spaces-has_layout 256 two_spaces layout_lem
