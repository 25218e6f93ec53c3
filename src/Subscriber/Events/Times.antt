-- ===== src/Subscriber/Events/Times.antt =====
-- subscriber.go: how often a channel is in the list of the readers, and what `swap_out` does to it.
use go_legs.Prelude.{
  ℕ, ◌+◌, ◌≡◌, refl, ap, ◌∙◌, ◌==◌, if◌then◌else◌, none, some, List, [], ◌∷◌, ◌++◌, arith,
  Bool-cases, inl, inr, ◌⊎◌, ==-eq,
}
use go_legs.Subscriber.Events.{last_of, but_last, swap_out}

-- How often a channel is in a list.
unfoldable pub times : ℕ → List ℕ → ℕ
times c [] = 0
times c (d ∷ ds) = (if c == d then 1 else 0) + times c ds

pub times-append : (c : ℕ) (xs ys : List ℕ) → times c (xs ++ ys) ≡ times c xs + times c ys
unfolding times
times-append c [] ys = omega arith
times-append c (x ∷ xs) ys = omega (arith, times-append c xs ys)

pub times-but_last :
    (c d : ℕ) (ds : List ℕ) → times c (last_of d ds ∷ but_last d ds) ≡ times c (d ∷ ds)
unfolding times
times-but_last c d [] = refl
times-but_last c d (e ∷ ds) = omega (arith, times-but_last c e ds)

-- What is left of a list when one channel is taken out.
pub times-swap_out :
    (ch : ℕ) (l : List ℕ)
    → ((swap_out ch l ≡ none) × (times ch l ≡ 0))
      ⊎ ((r : List ℕ) × (swap_out ch l ≡ some r)
          × ((c : ℕ) → times c l ≡ (if c == ch then 1 else 0) + times c r))
unfolding swap_out times
times-swap_out ch [] = inl (refl, refl)
times-swap_out ch (c ∷ []) = elim (Bool-cases (c == ch)) [
  | inl same ↦ inr ([], ground (arith, same), λ j. ground (arith, same))
  | inr other ↦ inl (ground (arith, other), ground (arith, other))
]
times-swap_out ch (c ∷ d ∷ ds) = elim (Bool-cases (c == ch)) [
  | inl same ↦ inr (
    last_of d ds ∷ but_last d ds,
    ground (arith, same),
    λ j. ground (arith, same, times-but_last j d ds),
  )
  | inr other ↦ elim (times-swap_out ch (d ∷ ds)) [
    | inl (none_left, zero_times) ↦
        inl (ground (arith, other, none_left), ground (arith, other, zero_times))
    | inr (r, e, count) ↦ inr (c ∷ r, ground (arith, other, e), λ j. ground (arith, count j))
  ]
]

pub times-at :
    (c ch : ℕ) (l : List ℕ) → times ch l ≡ 0 → times c l ≡ (if c == ch then 0 else times c l)
times-at c ch l zero_times = elim (Bool-cases (c == ch)) [
  | inl same ↦ rw same (ap (λ j. times j l) (==-eq c ch same) ∙ zero_times)
  | inr other ↦ rw other refl
]

pub swap_out-absent : (ch : ℕ) (l : List ℕ) → times ch l ≡ 0 → swap_out ch l ≡ none
swap_out-absent ch l zero_times = elim (times-swap_out ch l) [
  | inl (e, _) ↦ e
  | inr (r, e, count) ↦ absurd (ground (arith, count ch, zero_times))
]
