-- ===== src/Addr/Local.antt =====
-- Which interface GetLocalAddr chooses.
use huicpp.Base.{
  ℕ, ◌^◌, ◌-◌, ◌≡◌, ◌≢◌, refl, arith, List, [], ◌∷◌, not, ◌&&◌, if◌then◌else◌, ◌==◌, Option,
  Option-cases, inl, inr, none, some,
}
use huicpp.Addr.{
  af_inet, Interface, is_bad_address4_for_us, is_bad_address_for_us, take_interface,
  take_interfaces, get_local_addr,
}

-- The address of an interface that is up, no loopback, and has an IPv4 address which is, in host order,
-- not 0.0.0.0, 127.0.0.1 or 255.255.255.255.
pub usable : (ℕ → ℕ) → Interface → Option ℕ
usable htonl p =
    if p.is_up && not p.is_loopback
    then elim p.ifa_addr [
      | none ↦ none
      | some (family, addr) ↦
          if (family == af_inet)
            && (not (htonl addr == 0x7F000001)
                && (not (htonl addr == 0) && not (htonl addr == 2 ^ 32 - 1)))
          then some addr
          else none
    ]
    else none

pub first_usable : (ℕ → ℕ) → List Interface → ℕ
first_usable htonl [] = 0
first_usable htonl (p ∷ ps) =
    let rest = first_usable htonl ps in elim (usable htonl p) [ none ↦ rest | some addr ↦ addr ]

module _ (htonl : ℕ → ℕ) (zero_order : htonl 0 ≡ 0) where
  take_interface-found : (p : Interface) (ss : ℕ) → ss ≢ 0 → take_interface htonl p ss ≡ ss
  unfolding take_interface
  take_interface-found p ss h = elim (Option-cases p.ifa_addr) [
    | inl n ↦ rw n (ground arith)
    | inr ((f, a), e) ↦ rw e (ground (arith, h))
  ]

  take_interfaces-found : (ps : List Interface) (ss : ℕ) → ss ≢ 0 → take_interfaces htonl ps ss ≡ ss
  unfolding take_interfaces
  take_interfaces-found [] ss h = refl
  take_interfaces-found (p ∷ ps) ss h =
      rw (take_interface-found p ss h) (take_interfaces-found ps ss h)

  take_interface-none : (p : Interface) → usable htonl p ≡ none → take_interface htonl p 0 ≡ 0
  unfolding usable take_interface is_bad_address_for_us is_bad_address4_for_us
  take_interface-none p e = elim (Option-cases p.ifa_addr) [
    | inl n ↦ rw n (ground arith)
    | inr ((f, a), s) ↦ rw s (ground (arith, rw s at e))
  ]

  take_interface-some :
      (p : Interface) (a : ℕ) → usable htonl p ≡ some a → (take_interface htonl p 0 ≡ a) × (a ≢ 0)
  unfolding usable take_interface is_bad_address_for_us is_bad_address4_for_us
  take_interface-some p a e = elim (Option-cases p.ifa_addr) [
    | inl n ↦ absurd (ground (arith, rw n at e))
    | inr ((f, b), s) ↦ rw s (ground (arith, rw s at e, zero_order))
  ]

  take_interfaces_lem : (ps : List Interface) → take_interfaces htonl ps 0 ≡ first_usable htonl ps
  unfolding take_interfaces first_usable
  take_interfaces_lem [] = refl
  take_interfaces_lem (p ∷ ps) = elim (Option-cases (usable htonl p)) [
    | inl n ↦ rw (take_interface-none p n, first_usable, n) (take_interfaces_lem ps)
    | inr (a, e) ↦
        let (taken, found) = take_interface-some p a e in
        rw (taken, first_usable, e) (take_interfaces-found ps a found)
  ]

  -- GetLocalAddr gives the address of the first interface that is up, no loopback, and has an IPv4 address
  -- other than 0.0.0.0, 127.0.0.1 and 255.255.255.255; 0 if there is none, or if getifaddrs fails.
  pub get_local_addr_lem :
      (ps : List Interface)
      → (get_local_addr htonl (some ps) ≡ first_usable htonl ps) × (get_local_addr htonl none ≡ 0)
  unfolding get_local_addr
  get_local_addr_lem ps = (take_interfaces_lem ps, refl)
