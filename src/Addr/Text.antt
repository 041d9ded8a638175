-- ===== src/Addr/Text.antt =====
-- The texts of addresses.
use mathlib.Core.Path.{subst}
use huicpp.Base.{
  ℕ, suc, ◌+◌, ◌-◌, ◌/◌, ◌%◌, ◌^◌, ◌<◌, ◌≤◌, ◌≡◌, ◌≢◌, refl, sym, ap, ◌∙◌, arith, List, [], ◌∷◌,
  ◌++◌, length, length-append, take-append, drop, All, true, false, not, ◌&&◌, if◌then◌else◌, ltb,
  leb, ◌==◌, Bool-cases, Option, Option-cases, inl, inr, none, some,
}
use huicpp.Base.Options.{◌>>=◌}
use huicpp.Str.{Str, Ret, find, is_prefix, plus, substr, split, is_ok}
use huicpp.Str.Split.{join, split_lem}
use huicpp.Str.Pieces.{Free, split-join}
use huicpp.Str.Trim.{
  contains, find_first_not_of, is_all_of, is_all_digit, is_all_digit_and_dos, digits,
}
use huicpp.Time.Decimal.{decimal}
use huicpp.Addr.{
  SockAddr, af_inet, octets, is_ip4_str, setup_net_with_ip_string, parse_net_from_string,
  get_addr_info, to_string, string_ip_to_int, to_string_ip,
}

-- A text of characters of a set is without the others.
is_all_of-Free :
    (cs : Str) (c : ℕ) (s : Str) → contains cs c ≡ false → is_all_of s cs ≡ true → Free c s
unfolding is_all_of find_first_not_of plus
is_all_of-Free cs c [] n h = tt
is_all_of-Free cs c (d ∷ s) n h = elim (Bool-cases (contains cs d)) [
  | inl y ↦ elim (Option-cases (find_first_not_of s cs)) [
    | inl m ↦ (other y, is_all_of-Free cs c s n (rw (is_all_of, m) refl))
    | inr (i, m) ↦ absurd (ground (arith, rw (is_all_of, y, m) at h))
  ]
  | inr m ↦ absurd (ground (arith, rw (is_all_of, m) at h))
]
  where
    other : contains cs d ≡ true → (d == c) ≡ false
    other y = elim (Bool-cases (d == c)) [
      | inl e ↦
          (let g : d ≡ c = ground (arith, e) in absurd (ground (arith, n, y, ap (contains cs) g)))
      | inr f ↦ f
    ]

module _ (to_n : Str → Option ℕ) where
  pub IsOctet : Str → Type 0
  IsOctet p = (is_all_digit p ≡ true) × (n : ℕ) × (to_n p ≡ some n) × (n ≤ 255)

  -- Four numbers up to 255 with dots between them, in 15 characters at most.
  pub IsIp4 : Str → Type 0
  IsIp4 s =
      (a b c d : Str) × (s ≡ join (a ∷ b ∷ c ∷ d ∷ []) (46 ∷ []))
      × (All IsOctet (a ∷ b ∷ c ∷ d ∷ []) × (length s ≤ 15))

  octets-IsOctet : (ps : List Str) → octets to_n ps ≡ some true → All IsOctet ps
  unfolding octets IsOctet ◌>>=◌
  octets-IsOctet [] e = tt
  octets-IsOctet (p ∷ ps) e = elim (Bool-cases (is_all_digit p)) [
    | inl y ↦ elim (Option-cases (to_n p)) [
      | inl n ↦ absurd (ground (arith, rw (y, n) at e))
      | inr (n, m) ↦ elim (Bool-cases (ltb n (2 ^ 31) && leb n 255)) [
        | inl g ↦ ((y, n, m, ground (arith, g)), octets-IsOctet ps (rw (y, m, g) at e))
        | inr g ↦ absurd (ground (arith, rw (y, m, g) at e))
      ]
    ]
    | inr f ↦ absurd (ground (arith, rw f at e))
  ]

  IsOctet-octets : (ps : List Str) → All IsOctet ps → octets to_n ps ≡ some true
  unfolding octets IsOctet ◌>>=◌
  IsOctet-octets [] h = refl
  IsOctet-octets (p ∷ ps) ((y, n, m, l), hs) =
      let g : (ltb n (2 ^ 31) && leb n 255) ≡ true = ground (arith, l) in
      rw (y, m, g) (IsOctet-octets ps hs)

  digits-Free : (p : Str) → is_all_digit p ≡ true → Free 46 p
  unfolding is_all_digit
  digits-Free p h = is_all_of-Free digits 46 p (unfold contains in refl) h

  octets-Free : (ps : List Str) → All IsOctet ps → All (Free 46) ps
  unfolding IsOctet
  octets-Free [] h = tt
  octets-Free (p ∷ ps) (h, hs) = (digits-Free p h.0, octets-Free ps hs)

  is_ip4_str-IsIp4 : (s : Str) → is_ip4_str to_n s ≡ some true → IsIp4 s
  unfolding is_ip4_str IsIp4 is_ok ◌>>=◌
  is_ip4_str-IsIp4 [] e =
      let nothing : split [] (46 ∷ []) 0 ≡ some (Ret.invl_para, []) = unfold split in refl in
      absurd (ground (arith, rw nothing at e))
  is_ip4_str-IsIp4 (x ∷ xs) e = elim (Bool-cases (ltb 15 (length (x ∷ xs)))) [
    | inl y ↦ absurd (ground (arith, rw y at e))
    | inr l ↦
        let (pieces, result, joined, free) =
          split_lem (x ∷ xs) 46 [] 0 (λ z. absurd (ground (arith, z))) (omega arith) in
        four pieces joined (rw (l, result) at e) (ground (arith, l))
  ]
    where
      four :
          (ps : List Str)
          → join ps (46 ∷ []) ≡ x ∷ xs
          → (if not (length ps == 4) then some false else octets to_n ps) ≡ some true
          → length (x ∷ xs) ≤ 15
          → IsIp4 (x ∷ xs)
      four (a ∷ b ∷ c ∷ d ∷ []) j e l =
          (a, b, c, d, sym j, (octets-IsOctet (a ∷ b ∷ c ∷ d ∷ []) e, l))
      four [] j e l = absurd (ground (arith, e))
      four (a ∷ []) j e l = absurd (ground (arith, e))
      four (a ∷ b ∷ []) j e l = absurd (ground (arith, e))
      four (a ∷ b ∷ c ∷ []) j e l = absurd (ground (arith, e))
      four (a ∷ b ∷ c ∷ d ∷ f ∷ ps) j e l = absurd (ground (arith, e))

  -- IsIp4Str of four pieces is what its loop makes of them.
  is_ip4_str-join :
      (a b c d : Str)
      → All (Free 46) (a ∷ b ∷ c ∷ d ∷ [])
      → length (join (a ∷ b ∷ c ∷ d ∷ []) (46 ∷ [])) ≤ 15
      → is_ip4_str to_n (join (a ∷ b ∷ c ∷ d ∷ []) (46 ∷ [])) ≡ octets to_n (a ∷ b ∷ c ∷ d ∷ [])
  unfolding is_ip4_str is_ok ◌>>=◌
  is_ip4_str-join a b c d f l =
      let short : ltb 15 (length (join (a ∷ b ∷ c ∷ d ∷ []) (46 ∷ []))) ≡ false =
        ground (arith, l) in
      rw
        (
          short,
          split-join 46 a (b ∷ c ∷ d ∷ [])
              (unfold join in not_empty a (b ++ (46 ∷ []) ++ (c ++ (46 ∷ []) ++ d))) f,
        )
        refl
    where
      not_empty : (x y : Str) → x ++ (46 ∷ []) ++ y ≢ []
      not_empty [] y e = absurd (ground (arith, e))
      not_empty (z ∷ x) y e = absurd (ground (arith, e))

  -- IsIp4Str gives true exactly for four numbers up to 255 with dots between them, in 15 characters at
  -- most. It throws for four pieces without dots, in 15 characters at most, if the first one is empty: it
  -- asks std::stoi, which throws for an empty text.
  pub is_ip4_str_lem :
      (s b c d : Str)
      → to_n [] ≡ none
      → All (Free 46) (b ∷ c ∷ d ∷ [])
      → length (join ([] ∷ b ∷ c ∷ d ∷ []) (46 ∷ [])) ≤ 15
      → ((is_ip4_str to_n s ≡ some true → IsIp4 s) × (IsIp4 s → is_ip4_str to_n s ≡ some true))
        × (is_ip4_str to_n (join ([] ∷ b ∷ c ∷ d ∷ []) (46 ∷ [])) ≡ none)
  unfolding IsIp4
  is_ip4_str_lem s b c d throws f l =
      ((is_ip4_str-IsIp4 s, back), is_ip4_str-join [] b c d (tt, f) l ∙ empty)
    where
      back : IsIp4 s → is_ip4_str to_n s ≡ some true
      back (a, b, c, d, e, (h, l)) =
          subst (λ t. is_ip4_str to_n t ≡ some true) (sym e)
            (is_ip4_str-join a b c d (octets-Free (a ∷ b ∷ c ∷ d ∷ []) h)
                (subst (λ t. length t ≤ 15) e l)
              ∙ IsOctet-octets (a ∷ b ∷ c ∷ d ∷ []) h)

      empty : octets to_n ([] ∷ b ∷ c ∷ d ∷ []) ≡ none
      empty =
          unfold octets is_all_digit is_all_of find_first_not_of in rw throws (unfold ◌>>=◌ in refl)

-- `:` comes behind the first text.
find-colon : (x y : Str) → Free 58 x → find (x ++ (58 ∷ y)) (58 ∷ []) ≡ some (length x)
unfolding find is_prefix plus
find-colon [] y f = refl
find-colon (c ∷ x) y (f, fs) =
    let n : is_prefix (58 ∷ []) (c ∷ (x ++ (58 ∷ y))) ≡ false = ground (arith, f) in
    rw (n, find-colon x y fs) (ap some (omega arith))

pub decimal_not_empty : (fuel n : ℕ) → 0 < length (decimal (suc fuel) n)
unfolding decimal
decimal_not_empty fuel n = elim (Bool-cases (ltb n 10)) [
  | inl y ↦ rw y (omega arith)
  | inr f ↦ rw f (omega (arith, length-append (decimal fuel (n / 10)) ((48 + n % 10) ∷ [])))
]

drop-longer : (x y : Str) (c : ℕ) → drop (length x + 1) (x ++ (c ∷ y)) ≡ y
drop-longer [] y c = refl
drop-longer (d ∷ x) y c =
    let e : suc (length x) + 1 ≡ suc (length x + 1) = omega arith in
    ap (λ n. drop n (d ∷ (x ++ (c ∷ y)))) e ∙ drop-longer x y c

parse_net_from_string-parts :
    (inet_addr : Str → ℕ) (htons : ℕ → ℕ) (to_n : Str → Option ℕ) (ip text : Str) (port : ℕ)
    → is_all_digit_and_dos ip ≡ true
    → 0 < length text
    → to_n text ≡ some port
    → parse_net_from_string inet_addr htons to_n (ip ++ (58 ∷ text))
      ≡ some (setup_net_with_ip_string inet_addr htons to_n ip port)
unfolding parse_net_from_string substr ◌>>=◌
parse_net_from_string-parts inet_addr htons to_n ip text port dots some_digit read =
    let free =
      is_all_of-Free (digits ++ (46 ∷ [])) 58 ip (unfold contains in refl)
        (unfold is_all_digit_and_dos in dots) in
    let lengths : length (ip ++ (58 ∷ text)) ≡ length ip + suc (length text) =
      length-append ip (58 ∷ text) in
    let before : (length ip == length (ip ++ (58 ∷ text)) - 1) ≡ false =
      ground (arith, lengths, some_digit) in
    let inside : ltb (length (ip ++ (58 ∷ text))) (length ip + 1) ≡ false =
      ground (arith, lengths) in
    rw
      (
        parse_net_from_string,
        find-colon ip text free,
        before,
        take-append ip (58 ∷ text),
        dots,
        inside,
        drop-longer ip text 58,
        read,
      )
      refl

-- What is relied on: an address comes back from its text, which is of digits and dots; std::stoi reads what
-- "%d" writes; ntohs gives 16 bits and is undone by htons, and ntohl undoes htonl, which gives 32 bits.
pub record IsSystem (inet_addr : Str → ℕ) (inet_ntoa : ℕ → Str) (htons ntohs htonl ntohl : ℕ → ℕ)
    (to_n : Str → Option ℕ) : Type 0 where
  pub inet_addr_ntoa : (x : ℕ) → x < 2 ^ 32 → inet_addr (inet_ntoa x) ≡ x
  pub inet_ntoa_dots : (x : ℕ) → x < 2 ^ 32 → is_all_digit_and_dos (inet_ntoa x) ≡ true
  pub to_n_decimal : (n : ℕ) → n < 2 ^ 16 → to_n (decimal 10 n) ≡ some n
  pub ntohs_bound : (n : ℕ) → n < 2 ^ 16 → ntohs n < 2 ^ 16
  pub htons_ntohs : (n : ℕ) → n < 2 ^ 16 → htons (ntohs n) ≡ n
  pub htonl_bound : (n : ℕ) → n < 2 ^ 32 → htonl n < 2 ^ 32
  pub ntohl_htonl : (n : ℕ) → n < 2 ^ 32 → ntohl (htonl n) ≡ n

module _ {inet_addr : Str → ℕ} {inet_ntoa : ℕ → Str} {htons ntohs htonl ntohl : ℕ → ℕ}
    {to_n : Str → Option ℕ} (sys : IsSystem inet_addr inet_ntoa htons ntohs htonl ntohl to_n) where
  -- An IPv4 address with its port comes back from the text of ToString by ParseNetFromString, which is what
  -- the constructor from a text calls. A number comes back from the text of ToStringIp by StringIpToInt.
  pub parse_net_from_string-to_string :
      (a : SockAddr) (ll : ℕ)
      → a.sin_family ≡ af_inet
      → a.sin_port < 2 ^ 16
      → a.s_addr < 2 ^ 32
      → ll < 2 ^ 32
      → (parse_net_from_string inet_addr htons to_n (to_string inet_ntoa ntohs a)
          ≡ some (Ret.ok, a))
        × (string_ip_to_int inet_addr ntohl (to_string_ip inet_ntoa htonl ll) ≡ ll)
  unfolding string_ip_to_int to_string_ip to_string get_addr_info setup_net_with_ip_string
  parse_net_from_string-to_string a ll f p s l =
      let port = ntohs a.sin_port in
      let bound = sys.ntohs_bound a.sin_port p in
      let small : port % 65536 ≡ port = ground (arith, bound) in
      let family = ap (λ n. record a { sin_family = n }) (sym f) in
      (
        parse_net_from_string-parts inet_addr htons to_n (inet_ntoa a.s_addr) (decimal 10 port) port
              (sys.inet_ntoa_dots a.s_addr s) (decimal_not_empty 9 port)
              (sys.to_n_decimal port bound)
            ∙ ap (λ b. some (Ret.ok, b))
                (rw (small, sys.htons_ntohs a.sin_port p, sys.inet_addr_ntoa a.s_addr s) family),
        ap ntohl (sys.inet_addr_ntoa (htonl ll) (sys.htonl_bound ll l)) ∙ sys.ntohl_htonl ll l,
      )
