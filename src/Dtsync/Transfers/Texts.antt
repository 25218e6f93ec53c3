-- ===== src/Dtsync/Transfers/Texts.antt =====
-- Go's `strings.Index` and `strings.HasSuffix`, on lists of bytes.
use go_legs.Prelude.{
  ℕ, suc, ◌+◌, ◌≤◌, ◌≡◌, refl, ◌==◌, Bool, true, false, ◌&&◌, ◌||◌, if◌then◌else◌, Option, none,
  some, List, [], ◌∷◌, ◌++◌, length, arith, inl, inr, Option-cases,
}

unfoldable pub has_prefix : List ℕ → List ℕ → Bool
has_prefix [] ys = true
has_prefix (x ∷ xs) [] = false
has_prefix (x ∷ xs) (y ∷ ys) = (x == y) && has_prefix xs ys

abbrev is_empty : List ℕ → Bool
is_empty [] = true
is_empty (x ∷ xs) = false

-- Where the first occurrence of `needle` begins.
unfoldable pub index_of : List ℕ → List ℕ → Option ℕ
unfolding has_prefix
index_of needle [] = if is_empty needle then some 0 else none
index_of needle (y ∷ ys) =
    if has_prefix needle (y ∷ ys)
    then some 0
    else elim (index_of needle ys) [ none ↦ none | some i ↦ some (suc i) ]

unfoldable pub has_suffix : List ℕ → List ℕ → Bool
unfolding has_prefix
has_suffix needle [] = is_empty needle
has_suffix needle (y ∷ ys) =
    ((length needle == length (y ∷ ys)) && has_prefix needle (y ∷ ys)) || has_suffix needle ys

has_prefix-length : (xs ys : List ℕ) → has_prefix xs ys ≡ true → length xs ≤ length ys
unfolding has_prefix
has_prefix-length [] ys h = omega arith
has_prefix-length (x ∷ xs) [] h = cc
has_prefix-length (x ∷ xs) (y ∷ ys) h = ground (arith, has_prefix-length xs ys)

has_prefix-append :
    (xs ys zs : List ℕ) → length xs ≤ length ys → has_prefix xs (ys ++ zs) ≡ has_prefix xs ys
unfolding has_prefix
has_prefix-append [] ys zs h = refl
has_prefix-append (x ∷ xs) [] zs h = absurd (omega arith)
has_prefix-append (x ∷ xs) (y ∷ ys) zs h = ground (arith, has_prefix-append xs ys zs)

index_of-length : (xs ys : List ℕ) (i : ℕ) → index_of xs ys ≡ some i → i + length xs ≤ length ys
unfolding index_of
index_of-length [] [] i h = ground arith
index_of-length (x ∷ xs) [] i h = ground arith
index_of-length xs (y ∷ ys) i h = elim (Option-cases (index_of xs ys)) [
  | inl absent ↦ ground (arith, absent, has_prefix-length xs (y ∷ ys))
  | inr (j, found) ↦
      let bound = index_of-length xs ys j found in
      ground (arith, found, bound, has_prefix-length xs (y ∷ ys))
]

-- The first occurrence in a text is the first one in a longer text.
pub index_of-append :
    (xs ys zs : List ℕ) (i : ℕ) → index_of xs ys ≡ some i → index_of xs (ys ++ zs) ≡ some i
unfolding index_of
index_of-append [] [] [] i h = h
index_of-append [] [] (z ∷ zs) i h = ground arith
index_of-append (x ∷ xs) [] zs i h = cc
index_of-append xs (y ∷ ys) zs i h = elim (Option-cases (index_of xs ys)) [
  | inl absent ↦
      ground (arith, absent, has_prefix-append xs (y ∷ ys) zs, has_prefix-length xs (y ∷ ys))
  | inr (j, found) ↦
      let later = index_of-append xs ys zs j found in
      let bound = index_of-length xs ys j found in
      ground (arith, found, later, bound, has_prefix-append xs (y ∷ ys) zs)
]

-- A byte that a text lacks occurs first where it is added.
pub index_of_new :
    (b : ℕ) (xs ys : List ℕ)
    → index_of (b ∷ []) xs ≡ none
    → index_of (b ∷ []) (xs ++ b ∷ ys) ≡ some (length xs)
unfolding index_of has_prefix
index_of_new b [] ys h = ground arith
index_of_new b (x ∷ xs) ys h = ground (arith, index_of_new b xs ys)
