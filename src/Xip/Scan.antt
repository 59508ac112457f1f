-- ===== src/Xip/Scan.antt =====
-- What GetIntranetIpArray and GetIntranetIp return (xnet/xip/ip.go).
use opendevops_codo_golang_s.Xip.{
  intranet_of, Addr, is_intranet, Ip, dotted, v4, v6, addr_ip, get_intranet_ip_array, intranet_ip,
  round, scan_addrs, scan_interfaces, Interface, skipped,
}
use opendevops_codo_golang_s.Common.{
  Bytes, All, ◌≡◌, Option, true, ℕ, none, [], ◌≢◌, some, ◌∷◌, Bool, Bool-cases, List, All-append,
  ◌==◌, false, inl, inr, arith, refl,
}

-- A text that was read from an IPv4 address which is no loopback address and which IsIntranet takes.
abbrev IsUsable : Bytes → Type 0
IsUsable s =
    (is_intranet s ≡ true)
    × ((a : ℕ) × (b : ℕ) × (c : ℕ) × (d : ℕ) × (s ≡ dotted a b c d) × (a ≢ 127))

intranet_ip-IsUsable : (ip : Option Ip) → All IsUsable (intranet_ip ip)
unfolding intranet_ip
intranet_ip-IsUsable none = tt
intranet_ip-IsUsable (some (v6 true s)) = tt
intranet_ip-IsUsable (some (v6 false s)) = tt
intranet_ip-IsUsable (some (v4 a b c d)) = elim (Bool-cases (a == 127)) [
  | inl loopback ↦ rw loopback tt
  | inr outside ↦ elim (Bool-cases (is_intranet (dotted a b c d))) [
    | inl inside ↦ rw (outside, inside) ((inside, (a, b, c, d, refl, ground arith)), tt)
    | inr public ↦ rw (outside, public) tt
  ]
]

scan_addrs-IsUsable : (addrs : List Addr) → All IsUsable (scan_addrs addrs)
unfolding scan_addrs intranet_of
scan_addrs-IsUsable [] = tt
scan_addrs-IsUsable (a ∷ as') =
    All-append IsUsable (intranet_ip (addr_ip a)) (scan_addrs as')
      (intranet_ip-IsUsable (addr_ip a)) (scan_addrs-IsUsable as')

round-IsUsable :
    (skip : Bool) (addrs : Option (List Addr)) (rest : List Bytes × Bool)
    → All IsUsable rest.0
    → All IsUsable (round skip addrs rest).0
unfolding round
round-IsUsable true addrs rest h = h
round-IsUsable false none rest h = tt
round-IsUsable false (some as') rest h =
    All-append IsUsable (scan_addrs as') rest.0 (scan_addrs-IsUsable as') h

scan_interfaces-IsUsable : (is : List Interface) → All IsUsable (scan_interfaces is).0
unfolding scan_interfaces
scan_interfaces-IsUsable [] = tt
scan_interfaces-IsUsable (i ∷ is) =
    round-IsUsable (skipped i) i.addrs (scan_interfaces is) (scan_interfaces-IsUsable is)

-- GetIntranetIpArray returns intranet addresses in IPv4 form only, and no loopback address, whatever
-- the interfaces and also beside an error.
get_intranet_ip_array-IsUsable :
    (is : Option (List Interface)) → All IsUsable (get_intranet_ip_array is).0
unfolding get_intranet_ip_array
get_intranet_ip_array-IsUsable none = tt
get_intranet_ip_array-IsUsable (some is) = scan_interfaces-IsUsable is
