-- ===== src/Httpsync/Multiaddr/RoundTrip.antt =====
-- httpsync/multiaddr/convert.go: from a URL to a multiaddr and back.
use go_legs.Prelude.{
  ℕ, ◌<◌, ◌/◌, ◌%◌, ◌==◌, true, false, if◌then◌else◌, Option, none, some, List, [], ◌∷◌, ◌≡◌, refl,
  subst, ap, ◌∙◌, is_some, ==-eq, Option-cases, Bool-cases, inl, inr, arith,
}
use go_legs.Httpsync.Escape.{
  is_kept, hex, path_escape, IsBytes, hostname, port, path_unescape-path_escape,
}
use go_legs.Httpsync.Multiaddr.{
  path_val, Url, tcp_name, p_https, p_http, p_tls, p_ws, p_wss, p_httpath, Multiaddrs, lookup,
  scheme_of, path_of, enclosed, values, to_url, host_addr, with_port, with_path, authority,
  to_multiaddr,
}
use go_legs.Httpsync.Multiaddr.Laws.{
  IsWeb, http, https, ws, wss, is_asked, or_else, Holds, IsPlain, IsMultiaddrs, lookup-values,
}

no_path_code : {name : List ℕ} {code : ℕ} → IsWeb name code → (p_httpath == code) ≡ false
no_path_code http = refl
no_path_code https = refl
no_path_code ws = refl
no_path_code wss = refl

or_else-none : (o : Option (List ℕ)) → or_else o none ≡ o
or_else-none none = refl
or_else-none (some v) = refl

kept_no_slash : (b : ℕ) → is_kept b ≡ true → (b == 47) ≡ false
unfolding is_kept
kept_no_slash b kept = grind arith

hex_no_slash : (n : ℕ) → n < 16 → (hex n == 47) ≡ false
unfolding hex
hex_no_slash n small = grind arith

-- The URL that a multiaddr stands for.
abbrev pub url_of : (List ℕ → Option (List ℕ)) → Url → Option (List ℕ) → Option Url
url_of parse_ip u dialled = elim dialled [
  | none ↦ none
  | some host ↦ some (record { scheme = u.scheme; host = enclosed parse_ip host; path = u.path })
]

module _ {M : Type 0} {maddrs : Multiaddrs M} (laws : IsMultiaddrs maddrs) where
  -- Of the protocols that `ToURL` looks for, the multiaddr has `code` and a path.
  abbrev Shows : M → ℕ → Option (List ℕ) → Type 0
  Shows ma code path =
      ((c : ℕ)
        → is_asked c ≡ true
        → (c == p_httpath) ≡ false
        → maddrs.value_for_protocol ma c ≡ (if c == code then some [] else none))
      × (maddrs.value_for_protocol ma p_httpath ≡ path)

  join-Shows :
      (addr m : M) (code : ℕ)
      → (p_httpath == code) ≡ false
      → IsPlain maddrs addr
      → Holds maddrs m code (some [])
      → Shows (maddrs.join addr m) code none
  unfolding is_asked
  join-Shows addr m code other plain holds = (
    λ c asked no_path.
        laws.value-join addr m c
        ∙ rw (plain c asked) (elim (Bool-cases (c == code)) [
          | inl hit ↦ rw hit (ap (maddrs.value_for_protocol m) (==-eq c code hit) ∙ holds.0)
          | inr miss ↦ rw miss (holds.1 c miss)
        ]),
    laws.value-join addr m p_httpath ∙ rw (plain p_httpath refl) (holds.1 p_httpath other),
  )

  path_val-path_escape : (bs : List ℕ) → IsBytes bs → path_val (path_escape bs) ≡ false
  unfolding path_val path_escape
  path_val-path_escape [] bytes = refl
  path_val-path_escape (b ∷ bs) bytes =
      let rest = path_val-path_escape bs bytes.1 in
      elim (Bool-cases (is_kept b)) [
        | inl kept ↦ rw (kept, kept_no_slash b kept) rest
        | inr not_kept ↦
            rw (not_kept, hex_no_slash (b / 16) (omega arith), hex_no_slash (b % 16) (omega arith))
              rest
      ]

  abbrev escaped : List ℕ → Option (List ℕ)
  escaped [] = none
  escaped (b ∷ bs) = some (path_escape (b ∷ bs))

  with_path-Shows :
      (path : List ℕ) (joint : M) (code : ℕ)
      → IsBytes path
      → Shows joint code none
      → (ma : M) × (with_path maddrs path joint ≡ some ma) × Shows ma code (escaped path)
  unfolding with_path
  with_path-Shows [] joint code bytes shows = (joint, refl, shows)
  with_path-Shows (b ∷ bs) joint code bytes shows =
      let made =
        laws.httpath (path_escape (b ∷ bs)) (path_escape (b ∷ bs)) refl
          (path_val-path_escape (b ∷ bs) bytes) in
      (
        maddrs.join joint made.0,
        rw (with_path, made.1) refl,
        (
          λ c asked no_path.
              laws.value-join joint made.0 c
              ∙ rw (made.2.1 c no_path) (or_else-none (maddrs.value_for_protocol joint c))
              ∙ shows.0 c asked no_path,
          laws.value-join joint made.0 p_httpath ∙ rw (shows.1, made.2.0) refl,
        ),
      )

  is_some-lookup :
      (ma : M) (code : ℕ) (path : Option (List ℕ)) (c : ℕ)
      → Shows ma code path
      → is_asked c ≡ true
      → (c == p_httpath) ≡ false
      → is_some (lookup c (values maddrs ma (maddrs.protocols ma) [])) ≡ (c == code)
  is_some-lookup ma code path c shows asked no_path =
      rw (lookup-values maddrs laws ma c, shows.0 c asked no_path)
        (elim (Bool-cases (c == code)) [ inl hit ↦ rw hit refl | inr miss ↦ rw miss refl ])

  scheme_of-Shows :
      {name : List ℕ} {code : ℕ} (ma : M) (path : Option (List ℕ))
      → IsWeb name code
      → Shows ma code path
      → scheme_of (values maddrs ma (maddrs.protocols ma) []) ≡ name
  unfolding scheme_of is_asked
  scheme_of-Shows ma path http shows =
      rw
        (
          is_some-lookup ma p_http path p_https shows refl refl,
          is_some-lookup ma p_http path p_http shows refl refl,
          is_some-lookup ma p_http path p_tls shows refl refl,
        )
        refl
  scheme_of-Shows ma path https shows =
      rw (is_some-lookup ma p_https path p_https shows refl refl) refl
  scheme_of-Shows ma path ws shows =
      rw
        (
          is_some-lookup ma p_ws path p_https shows refl refl,
          is_some-lookup ma p_ws path p_http shows refl refl,
          is_some-lookup ma p_ws path p_wss shows refl refl,
          is_some-lookup ma p_ws path p_ws shows refl refl,
          is_some-lookup ma p_ws path p_tls shows refl refl,
        )
        refl
  scheme_of-Shows ma path wss shows =
      rw
        (
          is_some-lookup ma p_wss path p_https shows refl refl,
          is_some-lookup ma p_wss path p_http shows refl refl,
          is_some-lookup ma p_wss path p_wss shows refl refl,
        )
        refl

  path_of-Shows :
      (path : List ℕ) (code : ℕ) (ma : M)
      → IsBytes path
      → Shows ma code (escaped path)
      → path_of (values maddrs ma (maddrs.protocols ma) []) ≡ path
  unfolding path_of
  path_of-Shows [] code ma bytes shows =
      rw (path_of, lookup-values maddrs laws ma p_httpath, shows.1) refl
  path_of-Shows (b ∷ bs) code ma bytes shows =
      rw
        (
          path_of,
          lookup-values maddrs laws ma p_httpath,
          shows.1,
          path_unescape-path_escape (b ∷ bs) bytes,
        )
        refl

  with_port-IsPlain :
      (pv : List ℕ) (a addr : M)
      → IsPlain maddrs a
      → with_port maddrs pv a ≡ some addr
      → IsPlain maddrs addr
  unfolding with_port
  with_port-IsPlain [] a addr plain made = subst (IsPlain maddrs) (ground (arith, made)) plain
  with_port-IsPlain (p ∷ pv) a addr plain made =
      elim (Option-cases (maddrs.new_component tcp_name (p ∷ pv))) [
        | inl failed ↦ ground (arith, made, failed)
        | inr tcp ↦ subst (IsPlain maddrs) (ground (arith, made, tcp.1)) (λ c asked.
            laws.value-join a tcp.0 c
            ∙ rw (plain c asked) (laws.tcp_plain (p ∷ pv) tcp.0 tcp.1 c asked))
      ]

  module _ (parse_ip : List ℕ → Option (List ℕ)) where
    host_addr-IsPlain :
        (h : List ℕ) (addr : M) → host_addr maddrs parse_ip h ≡ some addr → IsPlain maddrs addr
    unfolding host_addr
    host_addr-IsPlain h addr made = elim (Option-cases (parse_ip h)) [
      | inl domain ↦ laws.dns_plain h addr (ground (arith, made, domain))
      | inr ip ↦ laws.from_ip_plain ip.0 addr (ground (arith, made, ip.1))
    ]

    authority-IsPlain :
        (host : List ℕ) (addr : M)
        → authority maddrs parse_ip host ≡ some addr
        → IsPlain maddrs addr
    unfolding authority
    authority-IsPlain host addr made =
        elim (Option-cases (host_addr maddrs parse_ip (hostname host))) [
          | inl failed ↦ ground (arith, made, failed)
          | inr first ↦
              with_port-IsPlain (port host) first.0 addr
                (host_addr-IsPlain (hostname host) first.0 first.1) (ground (arith, made, first.1))
        ]

    to_url-Shows :
        (u : Url) (code : ℕ) (ma : M)
        → IsWeb u.scheme code
        → IsBytes u.path
        → Shows ma code (escaped u.path)
        → to_url maddrs parse_ip ma ≡ url_of parse_ip u (maddrs.dial_args ma)
    unfolding to_url
    to_url-Shows u code ma web bytes shows = elim (Option-cases (maddrs.dial_args ma)) [
      | inl failed ↦ rw (to_url, failed) refl
      | inr dialled ↦
          rw
            (
              to_url,
              dialled.1,
              scheme_of-Shows ma (escaped u.path) web shows,
              path_of-Shows u.path code ma bytes shows,
            )
            refl
    ]

    -- If the host and the port of a URL with the scheme http, https, ws or wss have a multiaddr,
    -- then so has the URL, and the URL of that multiaddr has the same scheme, the same path and
    -- the host that `manet.DialArgs` finds, in brackets if it is a raw IPv6 address.
    pub to_url-to_multiaddr :
        (u : Url) (code : ℕ) (addr : M)
        → IsWeb u.scheme code
        → IsBytes u.path
        → authority maddrs parse_ip u.host ≡ some addr
        → (ma : M) × (to_multiaddr maddrs parse_ip u ≡ some ma)
          × (to_url maddrs parse_ip ma ≡ url_of parse_ip u (maddrs.dial_args ma))
    unfolding to_multiaddr
    to_url-to_multiaddr u code addr web bytes made =
        let scheme = laws.web u.scheme code web in
        let shows =
          join-Shows addr scheme.0 code (no_path_code web) (authority-IsPlain u.host addr made)
            scheme.2 in
        let built = with_path-Shows u.path (maddrs.join addr scheme.0) code bytes shows in
        (
          built.0,
          rw (to_multiaddr, made, scheme.1) built.1,
          to_url-Shows u code built.0 web bytes built.2,
        )
