-- ===== src/Httpsync/Multiaddr/Laws.antt =====
-- What the conversions of httpsync/multiaddr/convert.go rely on in go-multiaddr, and the map of values
-- that `ToURL` fills.
use go_legs.Prelude.{
  ℕ, ◌==◌, ◌||◌, Bool, true, false, if◌then◌else◌, Option, none, some, List, [], ◌∷◌, ◌≡◌, sym, ap,
  ◌∙◌, Option-cases, Bool-cases, inl, inr, arith,
}
use go_legs.Httpsync.Multiaddr.{
  path_val, path_st_b, path_bt_s, http_name, https_name, ws_name, wss_name, dns_name, tcp_name,
  httpath_name, p_https, p_http, p_tls, p_ws, p_wss, p_httpath, Multiaddrs, lookup, values,
}

-- The schemes that multiaddrs know, with their protocols.
pub data IsWeb : List ℕ → ℕ → Type 0 where
  http : IsWeb http_name p_http
  https : IsWeb https_name p_https
  ws : IsWeb ws_name p_ws
  wss : IsWeb wss_name p_wss

-- The protocols that `ToURL` looks for.
unfoldable pub is_asked : ℕ → Bool
is_asked c = c == p_https || c == p_http || c == p_tls || c == p_wss || c == p_ws || c == p_httpath

unfoldable pub contains : ℕ → List ℕ → Bool
contains c [] = false
contains c (p ∷ ps) = let rest = contains c ps in if c == p then true else rest

abbrev pub or_else : Option (List ℕ) → Option (List ℕ) → Option (List ℕ)
or_else (some v) o = some v
or_else none o = o

module _ {M : Type 0} (maddrs : Multiaddrs M) where
  -- A multiaddr of one protocol with its value.
  abbrev pub Holds : M → ℕ → Option (List ℕ) → Type 0
  Holds m code v =
      (maddrs.value_for_protocol m code ≡ v)
      × ((c : ℕ) → (c == code) ≡ false → maddrs.value_for_protocol m c ≡ none)

  abbrev pub IsPlain : M → Type 0
  IsPlain m = (c : ℕ) → is_asked c ≡ true → maddrs.value_for_protocol m c ≡ none

  -- What go-multiaddr documents. A component of `httpath` is made and read by its transcoder.
  pub record IsMultiaddrs : Type 0 where
    pub listed :
        (m : M) (c : ℕ) (v : List ℕ)
        → maddrs.value_for_protocol m c ≡ some v
        → contains c (maddrs.protocols m) ≡ true
    pub value-join :
        (a b : M) (c : ℕ)
        → maddrs.value_for_protocol (maddrs.join a b) c
          ≡ or_else (maddrs.value_for_protocol a c) (maddrs.value_for_protocol b c)
    pub web :
        (name : List ℕ) (code : ℕ)
        → IsWeb name code
        → (m : M) × (maddrs.new_component name [] ≡ some m) × Holds m code (some [])
    pub httpath :
        (s bytes : List ℕ)
        → path_st_b s ≡ some bytes
        → path_val bytes ≡ false
        → (m : M) × (maddrs.new_component httpath_name s ≡ some m)
          × Holds m p_httpath (path_bt_s bytes)
    pub from_ip_plain : (n : List ℕ) (m : M) → maddrs.from_ip n ≡ some m → IsPlain m
    pub dns_plain : (h : List ℕ) (m : M) → maddrs.new_component dns_name h ≡ some m → IsPlain m
    pub tcp_plain : (pv : List ℕ) (m : M) → maddrs.new_component tcp_name pv ≡ some m → IsPlain m

  -- An entry that agrees with the multiaddr stays.
  lookup-values_kept :
      (ma : M) (c : ℕ) (ps : List ℕ) (pm : List (ℕ × List ℕ))
      → lookup c pm ≡ maddrs.value_for_protocol ma c
      → lookup c (values maddrs ma ps pm) ≡ maddrs.value_for_protocol ma c
  unfolding values lookup
  lookup-values_kept ma c [] pm same = same
  lookup-values_kept ma c (p ∷ ps) pm same = elim (Option-cases (maddrs.value_for_protocol ma p)) [
    | inl absent ↦ rw (values, absent) (lookup-values_kept ma c ps pm same)
    | inr present ↦ elim (Bool-cases (c == p)) [
      | inl hit ↦
          let here : c ≡ p = ground arith in
          rw (values, present.1)
            (lookup-values_kept ma c ps ((p, present.0) ∷ pm)
              (rw (lookup, hit) (sym present.1 ∙ ap (maddrs.value_for_protocol ma) (sym here))))
      | inr miss ↦
          rw (values, present.1)
            (lookup-values_kept ma c ps ((p, present.0) ∷ pm) (rw (lookup, miss) same))
    ]
  ]

  -- The entry of a protocol that is listed is filled.
  lookup-values_listed :
      (ma : M) (c : ℕ) (v : List ℕ) (ps : List ℕ) (pm : List (ℕ × List ℕ))
      → maddrs.value_for_protocol ma c ≡ some v
      → contains c ps ≡ true
      → lookup c (values maddrs ma ps pm) ≡ some v
  unfolding contains values lookup
  lookup-values_listed ma c v [] pm has found = ground arith
  lookup-values_listed ma c v (p ∷ ps) pm has found = elim (Bool-cases (c == p)) [
    | inl hit ↦
        let here : c ≡ p = ground arith in
        let value : maddrs.value_for_protocol ma p ≡ some v =
          ap (maddrs.value_for_protocol ma) (sym here) ∙ has in
        rw (values, value)
          (lookup-values_kept ma c ps ((p, v) ∷ pm) (rw (lookup, hit) (sym has)) ∙ has)
    | inr miss ↦
        let later : contains c ps ≡ true = ground arith in
        elim (Option-cases (maddrs.value_for_protocol ma p)) [
          | inl absent ↦ rw (values, absent) (lookup-values_listed ma c v ps pm has later)
          | inr present ↦
              rw (values, present.1)
                (lookup-values_listed ma c v ps ((p, present.0) ∷ pm) has later)
        ]
  ]

  pub lookup-values :
      IsMultiaddrs
      → (ma : M) (c : ℕ)
      → lookup c (values maddrs ma (maddrs.protocols ma) []) ≡ maddrs.value_for_protocol ma c
  unfolding lookup
  lookup-values laws ma c = elim (Option-cases (maddrs.value_for_protocol ma c)) [
    | inl absent ↦ lookup-values_kept ma c (maddrs.protocols ma) [] (sym absent)
    | inr present ↦
        lookup-values_listed ma c present.0 (maddrs.protocols ma) [] present.1
          (laws.listed ma c present.0 present.1)
        ∙ sym present.1
  ]
