-- ===== src/Scheduler/HandlerSet.antt =====
-- HandlerDescriptor, HandlerSet and HandlerIterator of src/detail/scheduler/handlerset_in.h and .cpp. The
-- circular list of descriptors is a list from `m_handlers.m_next` on; a pointer to a descriptor is its
-- position.
pub mod Lookup
pub mod Refine
use huicpp.Base.{
  ℕ, zero, suc, List, [], ◌∷◌, Bool, true, false, not, if◌then◌else◌, Option, none, some,
}
use huicpp.Base.Ints.{ℤ, eqz, is_positive}

-- `proc` is an std::function, which may be empty.
pub record HandlerDescriptor (P : Type 0) : Type 0 where
  pub handler : ℤ
  pub flags : ℕ
  pub proc : Option P

unfoldable pub after_first : Option ℕ → Option ℕ
after_first none = none
after_first (some i) = some (suc i)

module _ {P : Type 0} where
  -- A call of the function, if there is one, with the events.
  unfoldable pub call_handler : HandlerDescriptor P → ℕ → List (P × ℕ)
  call_handler d events = elim d.proc [ none ↦ [] | some p ↦ (p, events) ∷ [] ]

  -- From the iterator's position on.
  unfoldable pub lookup_handler : ℤ → List (HandlerDescriptor P) → Option ℕ
  unfolding after_first
  lookup_handler socket_num [] = none
  lookup_handler socket_num (d ∷ ds) =
      let rest = lookup_handler socket_num ds in
      if eqz d.handler socket_num then some 0 else after_first rest

  -- Through a pointer.
  unfoldable pub modify :
      ℕ
      → (HandlerDescriptor P → HandlerDescriptor P)
      → List (HandlerDescriptor P)
      → List (HandlerDescriptor P)
  modify i f [] = []
  modify zero f (d ∷ ds) = f d ∷ ds
  modify (suc i) f (d ∷ ds) = d ∷ modify i f ds

  unfoldable pub unlink : ℕ → List (HandlerDescriptor P) → List (HandlerDescriptor P)
  unlink i [] = []
  unlink zero (d ∷ ds) = ds
  unlink (suc i) (d ∷ ds) = d ∷ unlink i ds

  unfoldable pub assign_handler :
      ℤ → ℕ → Option P → List (HandlerDescriptor P) → List (HandlerDescriptor P)
  unfolding modify
  assign_handler socket_num condition_set handler_proc ds =
      if not (is_positive socket_num) then ds else elim (lookup_handler socket_num ds) [
        | none ↦ record { handler = socket_num; flags = condition_set; proc = handler_proc } ∷ ds
        | some i ↦ modify i (λ d. record d { flags = condition_set; proc = handler_proc }) ds
      ]

  unfoldable pub remove_handler : ℤ → List (HandlerDescriptor P) → List (HandlerDescriptor P)
  remove_handler socket_num ds = elim (lookup_handler socket_num ds) [
    | none ↦ ds
    | some i ↦ unlink i ds
  ]

  unfoldable pub change_handler : ℤ → ℤ → List (HandlerDescriptor P) → List (HandlerDescriptor P)
  change_handler old_socket_num new_socket_num ds = elim (lookup_handler old_socket_num ds) [
    | none ↦ ds
    | some i ↦ modify i (λ d. record d { handler = new_socket_num }) ds
  ]
