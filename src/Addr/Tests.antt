-- ===== src/Addr/Tests.antt =====
-- Concrete functions for the system, and the theorems at concrete inputs.
use huicpp.Base.{
  ℕ, zero, suc, ◌+◌, ◌-◌, ◌*◌, ◌/◌, ◌%◌, ◌^◌, ◌<◌, ◌≡◌, refl, ap, ◌∙◌, arith, [], ◌∷◌, ◌++◌, length,
  true, false, ltb, Bool-cases, Option, Option-cases, inl, inr, none, some,
}
use native.Mathlib.Nat.{pow-suc}
use huicpp.Str.{Str, Ret, plus, split}
use huicpp.Str.Split.{join}
use huicpp.Str.Trim.{contains, find_first_not_of, is_all_of, is_all_digit_and_dos, digits}
use huicpp.Time.Decimal.{decimal}
use huicpp.Addr.{
  SockAddr, af_inet, Interface, get_local_addr, is_ip4_str, parse_net_from_string, to_string,
  string_ip_to_int, to_string_ip,
}
use huicpp.Addr.Text.{
  IsIp4, is_ip4_str_lem, IsSystem, decimal_not_empty, parse_net_from_string-to_string,
}

-- The value of a text of digits, behind those that made `n`.
value : ℕ → Str → ℕ
value n [] = n
value n (c ∷ s) = value (n * 10 + (c - 48)) s

-- std::stoi of a text of digits.
abbrev stoi : Str → Option ℕ
stoi [] = none
stoi (c ∷ s) = some (value 0 (c ∷ s))

value-append : (n c : ℕ) (s : Str) → value n (s ++ (c ∷ [])) ≡ value n s * 10 + (c - 48)
unfolding value
value-append n c [] = refl
value-append n c (d ∷ s) = value-append (n * 10 + (d - 48)) c s

value-decimal : (fuel n : ℕ) → n < 10 ^ suc fuel → value 0 (decimal (suc fuel) n) ≡ n
unfolding decimal value
value-decimal zero n h = let y : ltb n 10 ≡ true = ground (arith, h) in rw y (omega arith)
value-decimal (suc fuel) n h = elim (Bool-cases (ltb n 10)) [
  | inl y ↦ rw y (omega arith)
  | inr f ↦
      let p : n < 10 ^ suc fuel * 10 = rw (← pow-suc 10 (suc fuel)) h in
      let front = value-decimal fuel (n / 10) (omega (arith, p)) in
      let parts = value-append 0 (48 + n % 10) (decimal (suc fuel) (n / 10)) in
      let whole : value 0 (decimal (suc fuel) (n / 10) ++ ((48 + n % 10) ∷ [])) ≡ n =
        parts ∙ omega (arith, front) in
      rw f whole
]

stoi-value : (s : Str) → 0 < length s → stoi s ≡ some (value 0 s)
stoi-value [] h = absurd (omega arith)
stoi-value (c ∷ s) h = refl

all-append :
    (cs s t : Str) → is_all_of s cs ≡ true → is_all_of t cs ≡ true → is_all_of (s ++ t) cs ≡ true
unfolding is_all_of find_first_not_of plus
all-append cs [] t h g = g
all-append cs (c ∷ s) t h g = elim (Bool-cases (contains cs c)) [
  | inl y ↦ elim (Option-cases (find_first_not_of s cs)) [
    | inl m ↦
        let r = all-append cs s t (rw (is_all_of, m) refl) g in
        elim (Option-cases (find_first_not_of (s ++ t) cs)) [
          | inl k ↦ rw (is_all_of, y, k) refl
          | inr (i, k) ↦ absurd (ground (arith, rw (is_all_of, k) at r))
        ]
    | inr (i, m) ↦ absurd (ground (arith, rw (is_all_of, y, m) at h))
  ]
  | inr f ↦ absurd (ground (arith, rw (is_all_of, f) at h))
]

all-digit : (d : ℕ) → d < 10 → is_all_of ((48 + d) ∷ []) (digits ++ (46 ∷ [])) ≡ true
unfolding is_all_of find_first_not_of plus contains
all-digit d h = ground (arith, h)

all-decimal : (fuel n : ℕ) → is_all_of (decimal fuel n) (digits ++ (46 ∷ [])) ≡ true
unfolding decimal
all-decimal zero n = unfold is_all_of find_first_not_of in refl
all-decimal (suc fuel) n = elim (Bool-cases (ltb n 10)) [
  | inl y ↦ rw y (all-digit n (ground (arith, y)))
  | inr f ↦ rw f (
      all-append (digits ++ (46 ∷ [])) (decimal fuel (n / 10)) ((48 + n % 10) ∷ [])
        (all-decimal fuel (n / 10)) (all-digit (n % 10) (omega arith)))
]

-- An address whose text is one decimal number, on a machine whose byte order is that of the network.
one_number : IsSystem (value 0) (decimal 10) (λ n. n) (λ n. n) (λ n. n) (λ n. n) stoi
one_number = record {
  inet_addr_ntoa = λ x h. value-decimal 9 x (omega (arith, h));
  inet_ntoa_dots = λ x h. unfold is_all_digit_and_dos in all-decimal 10 x;
  to_n_decimal = λ n h.
      stoi-value (decimal 10 n) (decimal_not_empty 9 n)
      ∙ ap some (value-decimal 9 n (omega (arith, h)));
  ntohs_bound = λ n h. h;
  htons_ntohs = λ n h. refl;
  htonl_bound = λ n h. h;
  ntohl_htonl = λ n h. refl;
}

-- 127.0.0.1 with the port 80.
abbrev home : SockAddr
home = record { sin_family = af_inet; sin_port = 80; s_addr = 0x7F000001 }

parse_net_from_string-to_string_example :
    (parse_net_from_string (value 0) (λ n. n) stoi (to_string (decimal 10) (λ n. n) home)
      ≡ some (Ret.ok, home))
    × (string_ip_to_int (value 0) (λ n. n) (to_string_ip (decimal 10) (λ n. n) 7) ≡ 7)
parse_net_from_string-to_string_example =
    parse_net_from_string-to_string one_number home 7 refl (omega arith) (omega arith) (omega arith)

abbrev two_to_one : Interface × Interface
two_to_one = (
  record { is_up = true; is_loopback = true; ifa_addr = some (af_inet, 0x7F000001) },
  record { is_up = true; is_loopback = false; ifa_addr = some (af_inet, 0x0A000001) },
)

-- "1.22.3.255", and ".1.2.3"
is_ip4_str_lem_example :
    ((is_ip4_str stoi (49 ∷ 46 ∷ 50 ∷ 50 ∷ 46 ∷ 51 ∷ 46 ∷ 50 ∷ 53 ∷ 53 ∷ []) ≡ some true
        → IsIp4 stoi (49 ∷ 46 ∷ 50 ∷ 50 ∷ 46 ∷ 51 ∷ 46 ∷ 50 ∷ 53 ∷ 53 ∷ []))
      × (IsIp4 stoi (49 ∷ 46 ∷ 50 ∷ 50 ∷ 46 ∷ 51 ∷ 46 ∷ 50 ∷ 53 ∷ 53 ∷ [])
          → is_ip4_str stoi (49 ∷ 46 ∷ 50 ∷ 50 ∷ 46 ∷ 51 ∷ 46 ∷ 50 ∷ 53 ∷ 53 ∷ []) ≡ some true))
    × (is_ip4_str stoi (join ([] ∷ (49 ∷ []) ∷ (50 ∷ []) ∷ (51 ∷ []) ∷ []) (46 ∷ [])) ≡ none)
is_ip4_str_lem_example =
    is_ip4_str_lem stoi (49 ∷ 46 ∷ 50 ∷ 50 ∷ 46 ∷ 51 ∷ 46 ∷ 50 ∷ 53 ∷ 53 ∷ []) (49 ∷ []) (50 ∷ [])
      (51 ∷ []) refl ((refl, tt), ((refl, tt), ((refl, tt), tt))) (unfold join in omega arith)

accepted : is_ip4_str stoi (49 ∷ 46 ∷ 50 ∷ 50 ∷ 46 ∷ 51 ∷ 46 ∷ 50 ∷ 53 ∷ 53 ∷ []) ≡ some true
unfolding is_ip4_str value split is_all_of find_first_not_of
accepted = refl

-- a loopback interface before another
chosen : get_local_addr (λ n. n) (some (two_to_one.0 ∷ two_to_one.1 ∷ [])) ≡ 0x0A000001
unfolding get_local_addr
chosen = refl
