-- ===== src/Scheduler/SelectHandlers.antt =====
-- SelectHandlerMap of src/detail/scheduler/selecthandlers_in.h and .cpp; AddHandle and RemoveHandle are
-- `assign_handler` and `remove_handler`. The fd_set of the system, with its macros, is a parameter.
pub mod Events
pub mod Calls
use huicpp.Base.{
  ℕ, ◌≡◌, List, [], ◌∷◌, ◌++◌, Bool, true, false, not, if◌then◌else◌, ltb, ◌==◌, bit_and, bit_or,
}
use huicpp.Base.Ints.{ℤ, pos, negsuc, eqz}
use huicpp.Scheduler.HandlerSet.{HandlerDescriptor, call_handler}

-- FD_ZERO, FD_SET and FD_ISSET, which are defined on the handles from 0 to FD_SETSIZE - 1.
pub record FdSets : Type 1 where
  pub FdSet : Type 0
  pub InRange : ℤ → Type 0
  pub fd_zero : FdSet
  pub fd_set : ℤ → FdSet → FdSet
  pub fd_isset : ℤ → FdSet → Bool
  pub isset-zero : (k : ℤ) → InRange k → fd_isset k fd_zero ≡ false
  pub isset-set :
      (h k : ℤ) (s : FdSet)
      → InRange h
      → InRange k
      → fd_isset k (fd_set h s) ≡ (if eqz h k then true else fd_isset k s)

abbrev pub hit_read : ℕ
hit_read = 1

abbrev pub hit_write : ℕ
hit_write = 2

abbrev pub hit_excep : ℕ
hit_excep = 4

abbrev pub hit_test : ℕ
hit_test = 7

-- `flags & bit` as a condition.
unfoldable pub has : ℕ → ℕ → Bool
has flags bit = not (bit_and flags bit == 0)

unfoldable pub less : ℤ → ℤ → Bool
less (pos a) (pos b) = ltb a b
less (pos a) (negsuc b) = false
less (negsuc a) (pos b) = true
less (negsuc a) (negsuc b) = ltb b a

module _ (F : FdSets) where
  -- The three sets, and the largest handle.
  pub record HandleSets : Type 0 where
    pub rfds : F.FdSet
    pub wfds : F.FdSet
    pub efds : F.FdSet
    pub res : ℤ

  unfoldable pub set_if : Bool → ℤ → F.FdSet → F.FdSet
  set_if b h s = if b then F.fd_set h s else s

  -- One round of the loop.
  unfoldable pub setup_one : {P : Type 0} → HandlerDescriptor P → HandleSets → HandleSets
  unfolding set_if
  setup_one d s =
      let h = d.handler in
      if not (has d.flags hit_test) then s else record {
        rfds = set_if (has d.flags hit_read) h s.rfds;
        wfds = set_if (has d.flags hit_write) h s.wfds;
        efds = set_if (has d.flags hit_excep) h s.efds;
        res = if less s.res h then h else s.res;
      }

  unfoldable pub setup_each : {P : Type 0} → List (HandlerDescriptor P) → HandleSets → HandleSets
  setup_each [] s = s
  setup_each (d ∷ ds) s = setup_each ds (setup_one d s)

  unfoldable pub setup_handle_set : {P : Type 0} → List (HandlerDescriptor P) → HandleSets
  setup_handle_set ds =
      setup_each ds (record { rfds = F.fd_zero; wfds = F.fd_zero; efds = F.fd_zero; res = pos 0 })

  -- The events of a descriptor's handle.
  unfoldable pub result_events : F.FdSet → F.FdSet → F.FdSet → ℤ → ℕ
  result_events rfds wfds efds h =
      let r = if F.fd_isset h rfds then bit_or 0 hit_read else 0 in
      let w = if F.fd_isset h wfds then bit_or r hit_write else r in
      if F.fd_isset h efds then bit_or w hit_excep else w

  -- The calls in their order; the functions leave the handlers alone.
  unfoldable pub call_handlers :
      {P : Type 0} → F.FdSet → F.FdSet → F.FdSet → List (HandlerDescriptor P) → List (P × ℕ)
  call_handlers rfds wfds efds [] = []
  call_handlers rfds wfds efds (d ∷ ds) =
      let rest = call_handlers rfds wfds efds ds in
      let events = result_events rfds wfds efds d.handler in
      (if not (bit_and events d.flags == 0) then call_handler d events else []) ++ rest
