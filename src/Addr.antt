-- ===== src/Addr.antt =====
-- HIp4Addr of src/haddr: its texts, and the choice of the local address. The functions of the system are
-- arguments: inet_addr, inet_ntoa, the byte orders, and std::stoi as `to_n`, which gives the 32 bits of an
-- int, or `none` where it throws.
pub mod Text
pub mod Local
mod Tests
use huicpp.Base.{
  ℕ, ◌+◌, ◌-◌, ◌%◌, ◌^◌, List, [], ◌∷◌, ◌++◌, length, take, Bool, true, false, not, ◌&&◌, ◌||◌,
  if◌then◌else◌, ltb, leb, ◌==◌, Option, none, some,
}
use huicpp.Base.Options.{◌>>=◌}
use huicpp.Str.{Str, Ret, find, substr, split, is_ok}
use huicpp.Str.Trim.{is_all_digit, is_all_digit_and_dos}
use huicpp.Time.Decimal.{decimal}

-- sockaddr_in without its padding; the port and the address are in network order.
pub record SockAddr : Type 0 where
  pub sin_family : ℕ
  pub sin_port : ℕ
  pub s_addr : ℕ

abbrev pub af_inet : ℕ
af_inet = 2

abbrev pub no_addr : SockAddr
no_addr = record { sin_family = 0; sin_port = 0; s_addr = 0 }

-- The numbers of an address: whether all of them are good; `none` is an exception.
unfoldable pub octets : (Str → Option ℕ) → List Str → Option Bool
unfolding is_all_digit ◌>>=◌
octets to_n [] = some true
octets to_n (p ∷ ps) =
    let rest = octets to_n ps in
    if not (is_all_digit p)
    then some false
    else (do n ← to_n p; if not (ltb n (2 ^ 31) && leb n 255) then some false else rest)

unfoldable pub is_ip4_str : (Str → Option ℕ) → Str → Option Bool
unfolding octets is_ok ◌>>=◌
is_ip4_str to_n s = if ltb 15 (length s) then some false else (do
  (ret, ncs) ← split s (46 ∷ []) 0
  if not (is_ok ret)
      then some false
      else (if not (length ncs == 4) then some false else octets to_n ncs))

module _ (inet_addr : Str → ℕ) (htons : ℕ → ℕ) (to_n : Str → Option ℕ) where
  unfoldable pub setup_net_with_ip_string : Str → ℕ → Ret × SockAddr
  setup_net_with_ip_string ip port = (
    Ret.ok,
    record { sin_family = af_inet; sin_port = htons (port % 2 ^ 16); s_addr = inet_addr ip },
  )

  -- Behind find, the text is not empty.
  unfoldable pub parse_net_from_string : Str → Option (Ret × SockAddr)
  unfolding setup_net_with_ip_string substr is_all_digit_and_dos ◌>>=◌
  parse_net_from_string str = elim (find str (58 ∷ [])) [
    | none ↦ some (Ret.invl_para, no_addr)
    | some pos ↦
        if pos == length str - 1
        then some (Ret.invl_para, no_addr)
        else (if not (is_all_digit_and_dos (take pos str))
            then some (Ret.invl_para, no_addr)
            else (do
              text ← substr str (pos + 1)
              port ← to_n text
              some (setup_net_with_ip_string (take pos str) port)))
  ]

module _ (inet_ntoa : ℕ → Str) (ntohs : ℕ → ℕ) where
  unfoldable pub get_addr_info : SockAddr → Str × ℕ
  get_addr_info a = (inet_ntoa a.s_addr, ntohs a.sin_port)

  -- "%s:%d".
  unfoldable pub to_string : SockAddr → Str
  unfolding get_addr_info decimal
  to_string a = let (ip, port) = get_addr_info a in ip ++ (58 ∷ decimal 10 port)

unfoldable pub string_ip_to_int : (Str → ℕ) → (ℕ → ℕ) → Str → ℕ
string_ip_to_int inet_addr ntohl s = ntohl (inet_addr s)

unfoldable pub to_string_ip : (ℕ → Str) → (ℕ → ℕ) → ℕ → Str
to_string_ip inet_ntoa htonl ll = inet_ntoa (htonl ll)

-- What getifaddrs tells of an interface; the address is its family and its four bytes.
pub record Interface : Type 0 where
  pub is_up : Bool
  pub is_loopback : Bool
  pub ifa_addr : Option (ℕ × ℕ)

module _ (htonl : ℕ → ℕ) where
  unfoldable pub is_bad_address4_for_us : ℕ → Bool
  is_bad_address4_for_us addr =
      let n = htonl addr in (n == 0x7F000001) || ((n == 0) || (n == 2 ^ 32 - 1))

  unfoldable pub is_bad_address_for_us : ℕ × ℕ → Bool
  unfolding is_bad_address4_for_us
  is_bad_address_for_us (family, addr) =
      if family == af_inet then is_bad_address4_for_us addr else true

  -- One interface, after the address found so far.
  unfoldable pub take_interface : Interface → ℕ → ℕ
  unfolding is_bad_address_for_us
  take_interface p ss = if not p.is_up || p.is_loopback then ss else elim p.ifa_addr [
    | none ↦ ss
    | some (family, addr) ↦
        if is_bad_address_for_us (family, addr)
        then ss
        else (if (family == af_inet) && (ss == 0) then addr else ss)
  ]

  unfoldable pub take_interfaces : List Interface → ℕ → ℕ
  unfolding take_interface
  take_interfaces [] ss = ss
  take_interfaces (p ∷ ps) ss = take_interfaces ps (take_interface p ss)

  -- `none`: getifaddrs fails.
  unfoldable pub get_local_addr : Option (List Interface) → ℕ
  unfolding take_interfaces
  get_local_addr none = 0
  get_local_addr (some ps) = take_interfaces ps 0
