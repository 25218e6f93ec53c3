-- ===== src/Httpsync/Multiaddr/Tests.antt =====
-- Multiaddrs as lists of protocols with their values.
use go_legs.Prelude.{
  ℕ, ◌==◌, true, false, if◌then◌else◌, Option, none, some, List, [], ◌∷◌, ◌++◌, ◌≡◌, refl, ◌∙◌,
  subst, Bool-cases, inl, inr, arith,
}
use go_legs.Head.Paths.{is_same}
use go_legs.Httpsync.Escape.{IsBytes}
use go_legs.Httpsync.Multiaddr.{
  Url, http_name, https_name, ws_name, wss_name, dns_name, httpath_name, p_https, p_http, p_ws,
  p_wss, p_httpath, Multiaddrs, lookup, p_tls, authority, to_url, to_multiaddr,
}
use go_legs.Httpsync.Multiaddr.Laws.{
  IsWeb, http, https, ws, wss, contains, or_else, is_asked, Holds, IsPlain, IsMultiaddrs,
}
use go_legs.Httpsync.Multiaddr.RoundTrip.{url_of, to_url-to_multiaddr}

abbrev Addr : Type 0
Addr = List (ℕ × List ℕ)

abbrev codes : Addr → List ℕ
codes [] = []
codes (e ∷ es) = e.0 ∷ codes es

-- The code of a name; every other name stands for `tcp`.
abbrev code_of : List ℕ → ℕ
code_of name =
    if is_same name http_name
    then p_http
    else if is_same name https_name
    then p_https
    else if is_same name ws_name
    then p_ws
    else if is_same name wss_name
    then p_wss
    else if is_same name dns_name
    then 53
    else if is_same name httpath_name
    then p_httpath
    else 6

-- The name or the IP, and the port if it follows.
abbrev dialled : Addr → Option (List ℕ)
dialled [] = none
dialled (h ∷ []) = some h.1
dialled (h ∷ p ∷ es) = some (if p.0 == 6 then h.1 ++ 58 ∷ p.1 else h.1)

abbrev toy : Multiaddrs Addr
toy = record {
  dial_args = dialled;
  protocols = codes;
  value_for_protocol = λ m c. lookup c m;
  new_component = λ name v. some ((code_of name, v) ∷ []);
  from_ip = λ ip. some ((41, ip) ∷ []);
  join = λ a b. a ++ b;
}

toy_listed : (m : Addr) (c : ℕ) (v : List ℕ) → lookup c m ≡ some v → contains c (codes m) ≡ true
unfolding lookup contains
toy_listed [] c v found = ground arith
toy_listed (e ∷ es) c v found = elim (Bool-cases (c == e.0)) [
  | inl hit ↦ rw hit refl
  | inr miss ↦ rw miss (toy_listed es c v (ground (arith, found, miss)))
]

toy_join : (a b : Addr) (c : ℕ) → lookup c (a ++ b) ≡ or_else (lookup c a) (lookup c b)
unfolding lookup
toy_join [] b c = refl
toy_join (e ∷ es) b c = elim (Bool-cases (c == e.0)) [
  | inl hit ↦ rw hit refl
  | inr miss ↦ rw miss (toy_join es b c)
]

one-Holds : (code : ℕ) (v : List ℕ) → Holds toy ((code, v) ∷ []) code (some v)
unfolding lookup
one-Holds code v = (ground arith, λ c other. rw other refl)

one-IsPlain : (code : ℕ) (v : List ℕ) → is_asked code ≡ false → IsPlain toy ((code, v) ∷ [])
unfolding lookup is_asked
one-IsPlain code v other c asked = elim (Bool-cases (c == code)) [
  | inl hit ↦ ground (arith, hit, asked, other)
  | inr miss ↦ rw miss refl
]

IsPlain-if : (m n : Addr) → some n ≡ some m → IsPlain toy n → IsPlain toy m
IsPlain-if m n same plain = subst (IsPlain toy) (ground (arith, same)) plain

toy_web :
    (name : List ℕ) (code : ℕ)
    → IsWeb name code
    → (m : Addr) × (some ((code_of name, []) ∷ []) ≡ some m) × Holds toy m code (some [])
unfolding is_same
toy_web _ _ http = ((p_http, []) ∷ [], refl, one-Holds p_http [])
toy_web _ _ https = ((p_https, []) ∷ [], refl, one-Holds p_https [])
toy_web _ _ ws = ((p_ws, []) ∷ [], refl, one-Holds p_ws [])
toy_web _ _ wss = ((p_wss, []) ∷ [], refl, one-Holds p_wss [])

toy-IsMultiaddrs : IsMultiaddrs toy
unfolding is_same is_asked
toy-IsMultiaddrs = record {
  listed = toy_listed;
  value-join = toy_join;
  web = toy_web;
  httpath = λ s bytes h valid.
      ((p_httpath, s) ∷ [], refl, ((one-Holds p_httpath s).0 ∙ h, (one-Holds p_httpath s).1));
  from_ip_plain = λ n m made. IsPlain-if m ((41, n) ∷ []) made (one-IsPlain 41 n refl);
  dns_plain = λ h m made. IsPlain-if m ((53, h) ∷ []) made (one-IsPlain 53 h refl);
  tcp_plain = λ v m made. IsPlain-if m ((6, v) ∷ []) made (one-IsPlain 6 v refl);
}

-- "http://a:80/b c"
abbrev page : Url
page = record { scheme = http_name; host = 97 ∷ 58 ∷ 56 ∷ 48 ∷ []; path = 47 ∷ 98 ∷ 32 ∷ 99 ∷ [] }

abbrev no_ip : List ℕ → Option (List ℕ)
no_ip h = none

abbrev page_addr : Addr
page_addr = (53, 97 ∷ []) ∷ (6, 56 ∷ 48 ∷ []) ∷ []

page-IsBytes : IsBytes page.path
page-IsBytes = ground arith

to_url-to_multiaddr_example :
    (ma : Addr) × (to_multiaddr toy no_ip page ≡ some ma)
    × (to_url toy no_ip ma ≡ url_of no_ip page (dialled ma))
unfolding is_same authority
to_url-to_multiaddr_example =
    to_url-to_multiaddr toy-IsMultiaddrs no_ip page p_http page_addr http page-IsBytes refl

-- "/dns/a/tcp/80/http/httpath/%2Fb%20c"
abbrev page_multiaddr : Addr
page_multiaddr =
    page_addr ++ (p_http, []) ∷ (p_httpath, 37 ∷ 50 ∷ 70 ∷ 98 ∷ 37 ∷ 50 ∷ 48 ∷ 99 ∷ []) ∷ []

to_multiaddr-page : to_multiaddr toy no_ip page ≡ some page_multiaddr
unfolding to_multiaddr is_same
to_multiaddr-page = refl

to_url-page : to_url toy no_ip page_multiaddr ≡ some page
unfolding to_url
to_url-page = refl

-- A raw IPv6 address gets brackets, and "http" over "tls" is "https".
to_url_v6 :
    to_url toy some ((41, 9 ∷ []) ∷ (p_tls, []) ∷ (p_http, []) ∷ [])
    ≡ some (record { scheme = https_name; host = 91 ∷ 9 ∷ 93 ∷ []; path = [] })
unfolding to_url
to_url_v6 = refl
