-- ===== src/Scheduler/SelectHandlers/Calls.antt =====
-- Which functions CallHandlers calls, with which events.
use huicpp.Base.{
  ℕ, ◌≡◌, refl, sym, ◌∙◌, List, [], ◌∷◌, ◌++◌, Bool, true, false, not, ◌==◌, bit_and, bit_or,
  if◌then◌else◌, some, Option-cases, inl, inr, All, Among,
}
use huicpp.Base.Ints.{ℤ}
use huicpp.Scheduler.HandlerSet.{HandlerDescriptor, call_handler}
use huicpp.Scheduler.SelectHandlers.{
  FdSets, has, hit_read, hit_write, hit_excep, HandleSets, setup_handle_set, result_events,
  call_handlers,
}
use huicpp.Scheduler.SelectHandlers.Events.{wants, InSets, setup_handle_set_lem}

bits :
    (a b c : Bool)
    → let r = if a then bit_or 0 hit_read else 0 in
      let w = if b then bit_or r hit_write else r in
      let e = if c then bit_or w hit_excep else w in
      (has e hit_read ≡ a) × (has e hit_write ≡ b) × (has e hit_excep ≡ c)
unfolding has
bits true true true = (refl, refl, refl)
bits true true false = (refl, refl, refl)
bits true false true = (refl, refl, refl)
bits true false false = (refl, refl, refl)
bits false true true = (refl, refl, refl)
bits false true false = (refl, refl, refl)
bits false false true = (refl, refl, refl)
bits false false false = (refl, refl, refl)

All-append : {A : Type 0} (P : A → Type 0) (xs ys : List A) → All P xs → All P ys → All P (xs ++ ys)
All-append P [] ys h k = k
All-append P (x ∷ xs) ys (h, hs) k = (h, All-append P xs ys hs k)

All-if :
    {A : Type 0} (P : A → Type 0) (b : Bool) (xs : List A)
    → (b ≡ true → All P xs)
    → All P (if b then xs else [])
All-if P true xs h = h refl
All-if P false xs h = tt

module _ (F : FdSets) where
  -- What select promises of the sets that it gives back: only what was asked for is in them.
  pub record OnlyAsked (asked : HandleSets F) (rfds wfds efds : F.FdSet) : Type 0 where
    pub reads : (k : ℤ) → F.InRange k → F.fd_isset k rfds ≡ true → F.fd_isset k asked.rfds ≡ true
    pub writes : (k : ℤ) → F.InRange k → F.fd_isset k wfds ≡ true → F.fd_isset k asked.wfds ≡ true
    pub excepts : (k : ℤ) → F.InRange k → F.fd_isset k efds ≡ true → F.fd_isset k asked.efds ≡ true

All-Among :
    {A : Type 0} (xs all : List A)
    → ((x : A) → Among x xs → Among x all)
    → All (λ x. Among x all) xs
All-Among [] all h = tt
All-Among (x ∷ xs) all h = (h x (inl refl), All-Among xs all (λ y m. h y (inr m)))

module _ (F : FdSets) {P : Type 0} (ds : List (HandlerDescriptor P))
    (rfds wfds efds : F.FdSet) where
  -- A call of the function of a descriptor of the list, with the events of its own handle; it asks for one
  -- of them, and each of them was asked for by a descriptor of the handle.
  pub record IsAsked (c : P × ℕ) : Type 0 where
    pub descriptor : HandlerDescriptor P
    pub listed : Among descriptor ds
    pub function : descriptor.proc ≡ some c.0
    pub events : c.1 ≡ result_events F rfds wfds efds descriptor.handler
    pub one_of : has c.1 descriptor.flags ≡ true
    pub reads : has c.1 hit_read ≡ true → wants hit_read descriptor.handler ds ≡ true
    pub writes : has c.1 hit_write ≡ true → wants hit_write descriptor.handler ds ≡ true
    pub excepts : has c.1 hit_excep ≡ true → wants hit_excep descriptor.handler ds ≡ true

module _ (F : FdSets) {P : Type 0} where
  module _ (all : List (HandlerDescriptor P)) (rfds wfds efds : F.FdSet) (hall : InSets F all)
      (only : OnlyAsked F (setup_handle_set F all) rfds wfds efds) where
    abbrev Asked : P × ℕ → Type 0
    Asked = IsAsked F all rfds wfds efds

    IsAsked-one :
        (d : HandlerDescriptor P) (p : P)
        → Among d all
        → F.InRange d.handler
        → d.proc ≡ some p
        → has (result_events F rfds wfds efds d.handler) d.flags ≡ true
        → Asked (p, result_events F rfds wfds efds d.handler)
    unfolding result_events
    IsAsked-one d p m h e o =
        let k = d.handler in
        let (br, bw, be) = bits (F.fd_isset k rfds) (F.fd_isset k wfds) (F.fd_isset k efds) in
        let (wr, ww, we) = (setup_handle_set_lem F all hall).0 k h in
        record {
          descriptor = d;
          listed = m;
          function = e;
          events = refl;
          one_of = o;
          reads = λ x. sym wr ∙ only.reads k h (sym br ∙ x);
          writes = λ x. sym ww ∙ only.writes k h (sym bw ∙ x);
          excepts = λ x. sym we ∙ only.excepts k h (sym be ∙ x);
        }

    calls_one :
        (d : HandlerDescriptor P)
        → Among d all
        → F.InRange d.handler
        → let events = result_events F rfds wfds efds d.handler in
          All Asked (if not (bit_and events d.flags == 0) then call_handler d events else [])
    unfolding has call_handler
    calls_one d m h =
        let events = result_events F rfds wfds efds d.handler in
        All-if Asked (not (bit_and events d.flags == 0)) (call_handler d events) (λ b.
          elim (Option-cases d.proc) [
            | inl n ↦ rw n tt
            | inr (p, e) ↦ rw e (IsAsked-one d p m h e b, tt)
          ])

    calls_each :
        (ds : List (HandlerDescriptor P))
        → InSets F ds
        → All (λ d. Among d all) ds
        → All Asked (call_handlers F rfds wfds efds ds)
    unfolding call_handlers InSets
    calls_each [] h k = tt
    calls_each (d ∷ ds) (h, hs) (k, ks) =
        All-append Asked _ _ (calls_one d k h) (calls_each ds hs ks)

    -- If select gives back only what it was asked for, each call of CallHandlers is of the function of a
    -- descriptor of its list, with the events of that descriptor's handle, where the descriptor asks for
    -- one of them, and every event that it is given was asked for.
    pub call_handlers-IsAsked : All Asked (call_handlers F rfds wfds efds all)
    call_handlers-IsAsked = calls_each all hall (All-Among all all (λ x m. m))
