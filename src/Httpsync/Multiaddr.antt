-- ===== src/Httpsync/Multiaddr.antt =====
-- httpsync/multiaddr/convert.go: URLs from multiaddrs and multiaddrs from URLs. Texts are lists of
-- bytes. The multiaddrs of go-multiaddr and the parser of IP addresses are parameters.
pub mod Laws
pub mod RoundTrip
mod Tests
use go_legs.Prelude.{
  ℕ, ◌==◌, Bool, true, false, ◌&&◌, if◌then◌else◌, Option, none, some, List, [], ◌∷◌, ◌++◌, length,
  take, drop, is_some,
}
use go_legs.Mautil.Ip.{equal, in_v6, to4}
use go_legs.Httpsync.Escape.{path_escape, path_unescape, hostname, port}

-- The transcoder of the `httpath` component. Here `true` is an error.
unfoldable pub path_val : List ℕ → Bool
path_val [] = false
path_val (b ∷ bs) = let rest = path_val bs in if b == 47 then true else rest

abbrev pub path_st_b : List ℕ → Option (List ℕ)
path_st_b s = some s

abbrev pub path_bt_s : List ℕ → Option (List ℕ)
path_bt_s b = some b

-- `url.URL`, the fields that the code uses.
pub record Url : Type 0 where
  pub scheme : List ℕ
  pub host : List ℕ
  pub path : List ℕ

-- Names and codes of the protocols.
abbrev pub http_name : List ℕ
http_name = 104 ∷ 116 ∷ 116 ∷ 112 ∷ []

abbrev pub https_name : List ℕ
https_name = 104 ∷ 116 ∷ 116 ∷ 112 ∷ 115 ∷ []

abbrev pub ws_name : List ℕ
ws_name = 119 ∷ 115 ∷ []

abbrev pub wss_name : List ℕ
wss_name = 119 ∷ 115 ∷ 115 ∷ []

abbrev pub dns_name : List ℕ
dns_name = 100 ∷ 110 ∷ 115 ∷ []

abbrev pub tcp_name : List ℕ
tcp_name = 116 ∷ 99 ∷ 112 ∷ []

abbrev pub httpath_name : List ℕ
httpath_name = 104 ∷ 116 ∷ 116 ∷ 112 ∷ 97 ∷ 116 ∷ 104 ∷ []

abbrev pub p_https : ℕ
p_https = 443

abbrev pub p_http : ℕ
p_http = 480

abbrev pub p_tls : ℕ
p_tls = 448

abbrev pub p_ws : ℕ
p_ws = 477

abbrev pub p_wss : ℕ
p_wss = 478

abbrev pub p_httpath : ℕ
p_httpath = 0x300200

-- What the code calls of go-multiaddr. `none` is an error of the call.
pub record Multiaddrs (M : Type 0) : Type 0 where
  -- The host of `manet.DialArgs`.
  pub dial_args : M → Option (List ℕ)
  pub protocols : M → List ℕ
  pub value_for_protocol : M → ℕ → Option (List ℕ)
  pub new_component : List ℕ → List ℕ → Option M
  pub from_ip : List ℕ → Option M
  pub join : M → M → M

-- `net.IP.Equal`
unfoldable pub ip_equal : List ℕ → List ℕ → Bool
unfolding equal take drop
ip_equal a b =
    if length a == length b
    then equal a b
    else if length a == 4 && length b == 16
    then equal (take 12 b) in_v6 && equal a (drop 12 b)
    else if length a == 16 && length b == 4
    then equal (take 12 a) in_v6 && equal (drop 12 a) b
    else false

-- `ip.To4().Equal(ip)`. The nil that To4 returns has no bytes.
unfoldable pub is_v4 : List ℕ → Bool
unfolding to4 ip_equal
is_v4 ip = elim (to4 ip) [ none ↦ ip_equal [] ip | some ip4 ↦ ip_equal ip4 ip ]

-- `pm[code]`, the latest entry first.
unfoldable pub lookup : ℕ → List (ℕ × List ℕ) → Option (List ℕ)
lookup code [] = none
lookup code (e ∷ es) = let rest = lookup code es in if code == e.0 then some e.1 else rest

unfoldable pub scheme_of : List (ℕ × List ℕ) → List ℕ
unfolding lookup
scheme_of pm =
    if is_some (lookup p_https pm)
    then https_name
    else if is_some (lookup p_http pm)
    then (if is_some (lookup p_tls pm) then https_name else http_name)
    else if is_some (lookup p_wss pm)
    then wss_name
    else if is_some (lookup p_ws pm)
    then (if is_some (lookup p_tls pm) then wss_name else ws_name)
    else http_name

unfoldable pub path_of : List (ℕ × List ℕ) → List ℕ
unfolding lookup path_unescape
path_of pm = elim (lookup p_httpath pm) [
  | none ↦ []
  | some pb ↦ elim (path_unescape pb) [ none ↦ [] | some path ↦ path ]
]

-- A raw IPv6 address gets brackets.
unfoldable pub enclosed : (List ℕ → Option (List ℕ)) → List ℕ → List ℕ
unfolding is_v4
enclosed parse_ip host = elim (parse_ip host) [
  | none ↦ host
  | some ip ↦ if is_v4 ip then host else 91 ∷ (host ++ 93 ∷ [])
]

module _ {M : Type 0} (maddrs : Multiaddrs M) where
  -- The loop over the protocols that fills `pm`.
  unfoldable pub values : M → List ℕ → List (ℕ × List ℕ) → List (ℕ × List ℕ)
  values ma [] pm = pm
  values ma (p ∷ protos) pm = elim (maddrs.value_for_protocol ma p) [
    | none ↦ values ma protos pm
    | some v ↦ values ma protos ((p, v) ∷ pm)
  ]

  unfoldable pub with_port : List ℕ → M → Option M
  with_port [] addr = some addr
  with_port (p ∷ pv) addr = elim (maddrs.new_component tcp_name (p ∷ pv)) [
    | none ↦ none
    | some tcp ↦ some (maddrs.join addr tcp)
  ]

  unfoldable pub with_path : List ℕ → M → Option M
  unfolding path_escape
  with_path [] joint = some joint
  with_path (b ∷ bs) joint = elim (maddrs.new_component httpath_name (path_escape (b ∷ bs))) [
    | none ↦ none
    | some httpath ↦ some (maddrs.join joint httpath)
  ]

  module _ (parse_ip : List ℕ → Option (List ℕ)) where
    unfoldable pub to_url : M → Option Url
    unfolding enclosed values scheme_of path_of
    to_url ma = elim (maddrs.dial_args ma) [
      | none ↦ none
      | some host ↦
          let pm = values ma (maddrs.protocols ma) [] in
          some (record { scheme = scheme_of pm; host = enclosed parse_ip host; path = path_of pm })
    ]

    -- The IP or the domain name, and then the port.
    unfoldable pub host_addr : List ℕ → Option M
    host_addr h = elim (parse_ip h) [
      | some n ↦ maddrs.from_ip n
      | none ↦ maddrs.new_component dns_name h
    ]

    -- The part of a URL's host.
    unfoldable pub authority : List ℕ → Option M
    unfolding host_addr with_port hostname port
    authority host = elim (host_addr (hostname host)) [
      | none ↦ none
      | some addr ↦ with_port (port host) addr
    ]

    unfoldable pub to_multiaddr : Url → Option M
    unfolding authority with_path
    to_multiaddr u = elim (authority u.host) [
      | none ↦ none
      | some addr ↦ elim (maddrs.new_component u.scheme []) [
        | none ↦ none
        | some http ↦ with_path u.path (maddrs.join addr http)
      ]
    ]
