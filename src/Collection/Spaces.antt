-- ===== src/Collection/Spaces.antt =====
-- The exchange of the spaces keeps the layout of the collector's context.
use armliving_objects.Base.{ℕ, ◌+◌, ◌≡◌, arith, true, false, Bool-cases, inl, inr}
use armliving_objects.Memory.{Memory, write}
use armliving_objects.ObjectMemory.{Heap, gc_is_registered_context}
use armliving_objects.Collection.{gc_context, has_gc_context_layout, exchange_spaces}

-- The words of the context after the exchange.
module _ (om : ℕ) (m : Memory) where
  from_free_lem : exchange_spaces om m om ≡ m (om + 16)
  unfolding exchange_spaces write
  from_free_lem = ground arith

  from_end_lem : exchange_spaces om m (om + 8) ≡ m (om + 24)
  unfolding exchange_spaces write
  from_end_lem = ground arith

  to_free_lem : exchange_spaces om m (om + 16) ≡ m (om + 32)
  unfolding exchange_spaces write
  to_free_lem = ground arith

  to_end_lem : exchange_spaces om m (om + 24) ≡ m (om + 32) + m (om + 48)
  unfolding exchange_spaces write
  to_end_lem = ground arith

  from_start_lem : exchange_spaces om m (om + 32) ≡ m (om + 40)
  unfolding exchange_spaces write
  from_start_lem = ground arith

  to_start_lem : exchange_spaces om m (om + 40) ≡ m (om + 32)
  unfolding exchange_spaces write
  to_start_lem = ground arith

  space_size_lem : exchange_spaces om m (om + 48) ≡ m (om + 48)
  unfolding exchange_spaces write
  space_size_lem = ground arith

-- A context with the layout has it again after the exchange of the spaces: the collected to-space,
-- with its free pointer, becomes the from-space, and the old from-space an empty to-space.
pub exchange_spaces-has_layout :
    (om : ℕ) (h : Heap)
    → has_gc_context_layout om h ≡ true
    → (has_gc_context_layout om (record h { mem = exchange_spaces om h.mem }) ≡ true)
      × (exchange_spaces om h.mem om ≡ h.mem (om + 16))
      × (exchange_spaces om h.mem (om + 32) ≡ h.mem (om + 40))
      × (exchange_spaces om h.mem (om + 40) ≡ h.mem (om + 32))
      × (exchange_spaces om h.mem (om + 16) ≡ h.mem (om + 32))
unfolding has_gc_context_layout gc_is_registered_context gc_context
exchange_spaces-has_layout om h e =
    let m = h.mem in
    elim (Bool-cases (gc_is_registered_context om h)) [
      | inr other ↦ let f : false ≡ true = (rw other at e) in cc
      | inl registered ↦
          let tests = (rw registered at e) in
          (
            rw
                (
                  registered,
                  from_free_lem om m,
                  from_end_lem om m,
                  to_free_lem om m,
                  to_end_lem om m,
                  from_start_lem om m,
                  to_start_lem om m,
                  space_size_lem om m,
                )
                (ground (arith, tests)),
            from_free_lem om m,
            from_start_lem om m,
            to_start_lem om m,
            to_free_lem om m,
          )
    ]
