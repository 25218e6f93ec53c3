-- ===== src/Dtsync/Waits/Keys.antt =====
-- dtsync/sync.go: counts of the channels in the map of the syncs in progress.
use go_legs.Prelude.{
  ℕ, ◌+◌, ◌≡◌, ◌≢◌, refl, ◌==◌, if◌then◌else◌, none, some, List, [], ◌∷◌, arith, length,
}
use go_legs.Dtsync.Waits.{entries_of, find, erase}

-- How often a channel is listed.
unfoldable pub count : {Key : Type 0} → ℕ → List (Key × ℕ) → ℕ
count c [] = 0
count c ((k, d) ∷ m) = (if d == c then 1 else 0) + count c m

module _ {Key : Type 0} (same_key : Discrete Key) where
  -- No key stands twice.
  unfoldable pub IsMap : List (Key × ℕ) → Type 0
  unfolding find
  IsMap [] = Unit
  IsMap ((k, c) ∷ m) = (find same_key k m ≡ none) × IsMap m

  pub find-erase_self : (k : Key) (m : List (Key × ℕ)) → find same_key k (erase same_key k m) ≡ none
  unfolding find erase
  find-erase_self k [] = refl
  find-erase_self k ((j, c) ∷ m) = ground (arith, find-erase_self k m)

  pub find-erase_ne :
      (k j : Key) (m : List (Key × ℕ))
      → k ≢ j
      → find same_key k (erase same_key j m) ≡ find same_key k m
  unfolding find erase
  find-erase_ne k j [] ne = refl
  find-erase_ne k j ((i, c) ∷ m) ne = ground (arith, find-erase_ne k j m ne)

  pub erase_absent :
      (k : Key) (m : List (Key × ℕ)) → find same_key k m ≡ none → erase same_key k m ≡ m
  unfolding find erase
  erase_absent k [] h = refl
  erase_absent k ((j, c) ∷ m) h = ground (arith, erase_absent k m)

  pub find-none-erase :
      (k j : Key) (m : List (Key × ℕ))
      → find same_key k m ≡ none
      → find same_key k (erase same_key j m) ≡ none
  unfolding find erase
  find-none-erase k j [] h = refl
  find-none-erase k j ((i, c) ∷ m) h = ground (arith, find-none-erase k j m)

  pub erase-IsMap : (k : Key) (m : List (Key × ℕ)) → IsMap m → IsMap (erase same_key k m)
  unfolding erase IsMap
  erase-IsMap k [] h = h
  erase-IsMap k ((j, c) ∷ m) (new, h) =
      let rest = erase-IsMap k m h in ground (arith, rest, find-none-erase j k m new)

  -- To erase a key takes out the channel that it has, and no other.
  pub count-erase :
      (k : Key) (m : List (Key × ℕ)) (c d : ℕ)
      → IsMap m
      → find same_key k m ≡ some c
      → count d m ≡ (if c == d then 1 else 0) + count d (erase same_key k m)
  unfolding find erase count IsMap
  count-erase k ((j, b) ∷ m) c d (new, h) e = elim (same_key j k) [
    | yes q ↦ ground (arith, erase_absent j m new, erase_absent k m)
    | no ne ↦ ground (arith, count-erase k m c d h)
  ]
  count-erase k [] c d h e = cc

  -- A map that has the key and no other is nil afterwards, else it is the rest.
  pub entries_of-erase :
      (k : Key) (c : ℕ) (m : List (Key × ℕ))
      → find same_key k m ≡ some c
      → entries_of (if length m == 1 then none else some (erase same_key k m)) ≡ erase same_key k m
  unfolding find erase
  entries_of-erase k c [] e = refl
  entries_of-erase k c ((j, b) ∷ []) e = ground arith
  entries_of-erase k c ((j, b) ∷ (i, a) ∷ m) e = ground arith
