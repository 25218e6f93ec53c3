-- ===== src/Httpsync/Escape.antt =====
-- Go's `url.PathEscape` and `url.PathUnescape`, and the host name and the port of a URL's host, on
-- lists of bytes.
use go_legs.Prelude.{
  ℕ, ◌+◌, ◌-◌, ◌*◌, ◌/◌, ◌%◌, ◌<◌, ◌≡◌, refl, ◌==◌, ltb, leb, Bool, true, false, ◌&&◌, ◌||◌,
  if◌then◌else◌, Option, none, some, List, [], ◌∷◌, arith, ap, ◌∙◌, Bool-cases, inl, inr,
}

-- The bytes that a path segment may hold: letters, digits and `-_.~$&+:=@`.
unfoldable pub is_kept : ℕ → Bool
is_kept b =
    (leb 97 b && leb b 122)
    || (leb 65 b && leb b 90)
    || (leb 48 b && leb b 57)
    || b == 45
    || b == 95
    || b == 46
    || b == 126
    || b == 36
    || b == 38
    || b == 43
    || b == 58
    || b == 61
    || b == 64

unfoldable pub hex : ℕ → ℕ
hex n = if ltb n 10 then 48 + n else 55 + n

unfoldable pub unhex : ℕ → Option ℕ
unhex b =
    if leb 48 b && leb b 57
    then some (b - 48)
    else if leb 97 b && leb b 102
    then some (b - 87)
    else if leb 65 b && leb b 70
    then some (b - 55)
    else none

unfoldable pub path_escape : List ℕ → List ℕ
unfolding is_kept hex
path_escape [] = []
path_escape (b ∷ bs) =
    let rest = path_escape bs in
    if is_kept b then b ∷ rest else 37 ∷ hex (b / 16) ∷ hex (b % 16) ∷ rest

abbrev put : ℕ → Option (List ℕ) → Option (List ℕ)
put b rest = elim rest [ none ↦ none | some bs ↦ some (b ∷ bs) ]

abbrev byte_of : Option ℕ → Option ℕ → Option ℕ
byte_of (some a) (some b) = some (16 * a + b)
byte_of _ _ = none

abbrev put_byte : Option ℕ → Option (List ℕ) → Option (List ℕ)
put_byte (some b) rest = put b rest
put_byte none rest = none

-- `none` is an EscapeError.
unfoldable pub path_unescape : List ℕ → Option (List ℕ)
unfolding unhex
path_unescape [] = some []
path_unescape (c ∷ []) = if c == 37 then none else some (c ∷ [])
path_unescape (c ∷ a ∷ []) = elim (c == 37) [ true ↦ none | false ↦ put c (path_unescape (a ∷ [])) ]
path_unescape (c ∷ a ∷ b ∷ bs) = elim (c == 37) [
  | true ↦ put_byte (byte_of (unhex a) (unhex b)) (path_unescape bs)
  | false ↦ put c (path_unescape (a ∷ b ∷ bs))
]

-- What stands before and after the last colon.
unfoldable pub last_colon : List ℕ → Option (List ℕ × List ℕ)
last_colon [] = none
last_colon (b ∷ bs) = elim (last_colon bs) [
  | some cut ↦ some (b ∷ cut.0, cut.1)
  | none ↦ if b == 58 then some ([], bs) else none
]

unfoldable pub all_digits : List ℕ → Bool
all_digits [] = true
all_digits (b ∷ bs) = leb 48 b && leb b 57 && all_digits bs

-- What stands before a closing bracket at the end.
unfoldable pub before_bracket : List ℕ → Option (List ℕ)
before_bracket [] = none
before_bracket (b ∷ []) = if b == 93 then some [] else none
before_bracket (b ∷ c ∷ bs) = put b (before_bracket (c ∷ bs))

unfoldable pub unbracket : List ℕ → List ℕ
unfolding before_bracket
unbracket [] = []
unbracket (b ∷ bs) =
    if b == 91 then elim (before_bracket bs) [ some host ↦ host | none ↦ b ∷ bs ] else b ∷ bs

-- `u.Hostname()` and `u.Port()`
unfoldable pub hostname : List ℕ → List ℕ
unfolding last_colon all_digits unbracket
hostname host = elim (last_colon host) [
  | none ↦ unbracket host
  | some cut ↦ if all_digits cut.1 then unbracket cut.0 else unbracket host
]

unfoldable pub port : List ℕ → List ℕ
unfolding last_colon all_digits
port host = elim (last_colon host) [ none ↦ [] | some cut ↦ if all_digits cut.1 then cut.1 else [] ]

-- Every number is a byte.
abbrev pub IsBytes : List ℕ → Type 0
IsBytes [] = Unit
IsBytes (b ∷ bs) = (b < 256) × IsBytes bs

unhex-hex : (n : ℕ) → n < 16 → unhex (hex n) ≡ some n
unfolding unhex hex
unhex-hex n small = grind arith

kept_plain : (b : ℕ) → is_kept b ≡ true → (b == 37) ≡ false
unfolding is_kept
kept_plain b kept = grind arith

unescape_kept :
    (b : ℕ) (bs : List ℕ) → (b == 37) ≡ false → path_unescape (b ∷ bs) ≡ put b (path_unescape bs)
unfolding path_unescape
unescape_kept b [] plain = rw plain refl
unescape_kept b (a ∷ []) plain = rw (path_unescape, plain) refl
unescape_kept b (a ∷ c ∷ bs) plain = rw (path_unescape, plain) refl

unescape_byte :
    (b : ℕ) (bs : List ℕ)
    → b < 256
    → path_unescape (37 ∷ hex (b / 16) ∷ hex (b % 16) ∷ bs) ≡ put b (path_unescape bs)
unfolding path_unescape
unescape_byte b bs small =
    let joined : 16 * (b / 16) + b % 16 ≡ b = omega arith in
    rw (unhex-hex (b / 16) (omega arith), unhex-hex (b % 16) (omega arith), joined) refl

-- What is escaped is read back.
pub path_unescape-path_escape :
    (bs : List ℕ) → IsBytes bs → path_unescape (path_escape bs) ≡ some bs
unfolding path_escape path_unescape
path_unescape-path_escape [] bytes = refl
path_unescape-path_escape (b ∷ bs) bytes =
    let rest = path_unescape-path_escape bs bytes.1 in
    elim (Bool-cases (is_kept b)) [
      | inl kept ↦ rw kept (unescape_kept b (path_escape bs) (kept_plain b kept) ∙ ap (put b) rest)
      | inr not_kept ↦ rw not_kept (unescape_byte b (path_escape bs) bytes.0 ∙ ap (put b) rest)
    ]
