-- ===== src/Xip.antt =====
-- xnet/xip/ip.go. The network interfaces and their addresses, which package net reads from the system,
-- are arguments.
pub mod Ranges
pub mod Scan
use opendevops_codo_golang_s.Go.Text.{join, has_prefix, split}
use opendevops_codo_golang_s.Go.Number.{Parsed, ℤ, format_uint, pos, negsuc, parse_int}
use opendevops_codo_golang_s.Common.{
  Bool, Bytes, List, Option, ℕ, [], false, if◌then◌else◌, none, some, true, ◌==◌, ◌∷◌, same, ◌++◌,
  ◌||◌, leb, utf8, ◌&&◌,
}

-- net.IP: four bytes, in either of Go's forms, or an IPv6 address with its text.
pub data Ip : Type 0 where
  v4 : ℕ → ℕ → ℕ → ℕ → Ip
  v6 : (loopback : Bool) → Bytes → Ip

-- IP.String of an IPv4 address.
unfoldable pub dotted : ℕ → ℕ → ℕ → ℕ → Bytes
dotted a b c d = join b'.' (format_uint a ∷ format_uint b ∷ format_uint c ∷ format_uint d ∷ [])

unfoldable is_loopback : Ip → Bool
is_loopback (v4 a b c d) = a == 127
is_loopback (v6 loopback s) = loopback

-- IP.String of IP.To4, which is nil for an IPv6 address.
unfoldable to4_string : Ip → Option Bytes
to4_string (v4 a b c d) = some (dotted a b c d)
to4_string (v6 loopback s) = none

-- The second part of a 172 address.
in_b : Parsed ℤ → Bool
in_b r = elim r.error [
  | some e ↦ false
  | none ↦ elim r.value [ pos n ↦ leb 16 n && leb n 31 | negsuc n ↦ false ]
]

parts_intranet : List Bytes → Bool
unfolding in_b
parts_intranet (p ∷ q ∷ r ∷ s ∷ []) =
    if same p (utf8 "10") || (same p (utf8 "192") && same q (utf8 "168"))
    then true
    else if same p (utf8 "192") && same q (utf8 "168")
    then true
    else if same p (utf8 "172")
    then in_b (parse_int 64 q)
    else false
parts_intranet _ = false

-- IsIntranet
unfoldable pub is_intranet : Bytes → Bool
unfolding parts_intranet
is_intranet ip = if same ip (utf8 "127.0.0.1") then true else parts_intranet (split b'.' ip)

-- net.Addr: *net.IPNet, *net.IPAddr, whose IP may be nil, and other types.
pub data Addr : Type 0 where
  ip_net ip_addr : Option Ip → Addr
  other : Addr

pub record Interface : Type 0 where
  pub up : Bool
  pub loopback : Bool
  pub name : Bytes
  -- interFace.Addrs(): `none` is its error.
  pub addrs : Option (List Addr)

unfoldable pub addr_ip : Addr → Option Ip
addr_ip (ip_net ip) = ip
addr_ip (ip_addr ip) = ip
addr_ip other = none

intranet_ip : Option Ip → List Bytes
unfolding is_loopback to4_string
intranet_ip none = []
intranet_ip (some ip) =
    if is_loopback ip
    then []
    else elim (to4_string ip) [ none ↦ [] | some s ↦ if is_intranet s then s ∷ [] else [] ]

-- What one address adds to the result.
unfoldable pub intranet_of : Addr → List Bytes
unfolding addr_ip intranet_ip
intranet_of addr = intranet_ip (addr_ip addr)

scan_addrs : List Addr → List Bytes
scan_addrs [] = []
scan_addrs (a ∷ as') = intranet_of a ++ scan_addrs as'

skipped : Interface → Bool
skipped i = if i.up then (i.loopback || has_prefix i.name (utf8 "w-")) else true

-- One round of the loop over the interfaces: `rest` is what the later rounds give.
round : Bool → Option (List Addr) → List Bytes × Bool → List Bytes × Bool
round true addrs rest = rest
round false none rest = ([], false)
round false (some as') rest = (scan_addrs as' ++ rest.0, rest.1)

-- The loop: the result and whether no Addrs call failed.
scan_interfaces : List Interface → List Bytes × Bool
unfolding round
scan_interfaces [] = ([], true)
scan_interfaces (i ∷ is) = round (skipped i) i.addrs (scan_interfaces is)

-- GetIntranetIpArray: the addresses, and `false` with an error; `none` is a failure of net.Interfaces.
unfoldable pub get_intranet_ip_array : Option (List Interface) → List Bytes × Bool
unfolding scan_interfaces skipped scan_addrs
get_intranet_ip_array none = ([], false)
get_intranet_ip_array (some is) = scan_interfaces is

-- GetIntranetIp; MustGetIntranetIp panics where this is `none`.
unfoldable get_intranet_ip : Option (List Interface) → Option Bytes
get_intranet_ip is = elim (get_intranet_ip_array is).1 [
  | false ↦ none
  | true ↦ elim (get_intranet_ip_array is).0 [ [] ↦ none | ip ∷ ips ↦ some ip ]
]

scan_host : List Addr → List Bytes
scan_host [] = []
scan_host (ip_net (some ip) ∷ as') =
    let rest = scan_host as' in
    if is_loopback ip then rest else elim (to4_string ip) [ none ↦ rest | some s ↦ s ∷ rest ]
scan_host (_ ∷ as') = scan_host as'

-- GetIpArray, over the addresses of the host; `none` is a failure of net.InterfaceAddrs.
unfoldable get_ip_array : Option (List Addr) → Option (List Bytes)
unfolding scan_host
get_ip_array none = none
get_ip_array (some as') = some (scan_host as')
