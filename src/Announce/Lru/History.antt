-- ===== src/Announce/Lru/History.antt =====
-- announce/string_lru.go over a whole run of updates, against a history that forgets nothing.
use go_legs.Prelude.{
  ℕ, zero, suc, ◌<◌, ◌≡◌, refl, ap, sym, ◌∙◌, Option, none, some, List, [], ◌∷◌, take, remove,
  contains, remove_absent, arith, Bool, false, contains-remove_self, contains-remove_ne,
  take_of_length-le, length-take-le, if_pos, if_neg,
}
use go_legs.Announce.Lru.{Lru, update, new_lru}
use go_legs.Announce.Lru.Nodes.{values}
use go_legs.Announce.Lru.Refines.{IsValid, new_lru-IsValid, update-refines}

module _ {ℓ} {K : Type ℓ} (dec : Discrete K) where
  -- A list without repetitions.
  abbrev IsDistinct : List K → Type 0
  IsDistinct [] = Unit {0}
  IsDistinct (x ∷ xs) = (contains dec x xs ≡ false) × IsDistinct xs

  abbrev pub touch : K → List K → List K
  touch s h = s ∷ remove dec s h

  -- The keys used so far, the latest first.
  unfoldable pub recent : List K → List K → List K
  recent h [] = h
  recent h (s ∷ ss) = recent (touch s h) ss

  -- Which updates find their key among the `n` keys used last.
  unfoldable pub reports : ℕ → List K → List K → List Bool
  reports n h [] = []
  reports n h (s ∷ ss) = contains dec s (take n h) ∷ reports n (touch s h) ss

  -- The updates in turn, and what they report.
  unfoldable pub update_all : Lru K → List K → Option (Lru K × List Bool)
  update_all l [] = some (l, [])
  update_all l (s ∷ ss) = elim (update dec l s) [
    | none ↦ none
    | some (m, hit) ↦ elim (update_all m ss) [ none ↦ none | some (r, hits) ↦ some (r, hit ∷ hits) ]
  ]

  remove-IsDistinct : (s : K) (h : List K) → IsDistinct h → IsDistinct (remove dec s h)
  unfolding remove
  remove-IsDistinct s [] d = tt
  remove-IsDistinct s (x ∷ h) d = elim (dec x s) [
    | yes p ↦ rw (if_pos _ p) (remove-IsDistinct s h d.1)
    | no p ↦ rw (if_neg _ p) (contains-remove_ne dec x s h p ∙ d.0, remove-IsDistinct s h d.1)
  ]

  contains-take :
      (s : K) (n : ℕ) (h : List K) → contains dec s h ≡ false → contains dec s (take n h) ≡ false
  unfolding take contains
  contains-take s zero h p = refl
  contains-take s (suc n) [] p = refl
  contains-take s (suc n) (x ∷ h) p = ground (arith, contains-take s n h)

  take-remove_absent :
      (n : ℕ) (s : K) (h : List K)
      → contains dec s h ≡ false
      → take n (remove dec s (take n h)) ≡ take n (remove dec s h)
  take-remove_absent n s h p =
      ap (take n) (remove_absent dec s (take n h) (contains-take s n h p))
      ∙ take_of_length-le n (take n h) (length-take-le n h)
      ∙ ap (take n) (sym (remove_absent dec s h p))

  take-remove-take :
      (n : ℕ) (s : K) (h : List K)
      → IsDistinct h
      → take n (remove dec s (take (suc n) h)) ≡ take n (remove dec s h)
  unfolding take remove
  take-remove-take zero s h d = refl
  take-remove-take (suc n) s [] d = refl
  take-remove-take (suc n) s (x ∷ h) d = elim (dec x s) [
    | yes p ↦ rw (if_pos _ p, if_pos _ p) (take-remove_absent (suc n) s h (rw p at d.0))
    | no p ↦ rw (if_neg _ p, if_neg _ p) (ap (◌∷◌ x) (take-remove-take n s h d.1))
  ]

  -- To keep the `n` keys used last, the keys that fell out before do not matter.
  take-touch-take :
      (n : ℕ) (s : K) (h : List K) → IsDistinct h → take n (touch s (take n h)) ≡ take n (touch s h)
  unfolding take
  take-touch-take zero s h d = refl
  take-touch-take (suc n) s h d = ap (◌∷◌ s) (take-remove-take n s h d)

  touch-IsDistinct : (s : K) (h : List K) → IsDistinct h → IsDistinct (touch s h)
  touch-IsDistinct s h d = (contains-remove_self dec s h, remove-IsDistinct s h d)

  -- The cache holds the keys at the head of a history.
  record Tracks (n : ℕ) (l : Lru K) (h : List K) : Type ℓ where
    valid : IsValid dec l
    capacity : l.max ≡ n
    window : values l.nodes ≡ take n h

  Tracks-update :
      (n : ℕ) (l : Lru K) (h : List K) (s : K)
      → 0 < n
      → IsDistinct h
      → Tracks n l h
      → (r : Lru K) × (update dec l s ≡ some (r, contains dec s (take n h)))
        × Tracks n r (touch s h)
  Tracks-update n l h s pos d t =
      let (r, step, valid, kept, same) =
        update-refines dec l s t.valid (omega (arith, t.capacity)) in
      (
        r,
        rw t.window at step,
        record {
          valid = valid;
          capacity = same ∙ t.capacity;
          window =
              kept
              ∙ ap (λ c. take c (touch s (values l.nodes))) t.capacity
              ∙ ap (λ v. take n (touch s v)) t.window
              ∙ take-touch-take n s h d;
        },
      )

  Tracks-update_all :
      (n : ℕ) (l : Lru K) (h ss : List K)
      → 0 < n
      → IsDistinct h
      → Tracks n l h
      → (r : Lru K) × (update_all l ss ≡ some (r, reports n h ss)) × Tracks n r (recent h ss)
  unfolding update_all reports recent
  Tracks-update_all n l h [] pos d t = (l, refl, t)
  Tracks-update_all n l h (s ∷ ss) pos d t =
      let (m, step, t') = Tracks-update n l h s pos d t in
      let (r, steps, t'') = Tracks-update_all n m (touch s h) ss pos (touch-IsDistinct s h d) t' in
      (r, rw (step, update_all, steps) refl, t'')

  -- A run of updates of a new LRU of a positive size n never fails, reports of each key whether
  -- it is among the n different keys used last, and leaves a well formed LRU of exactly those,
  -- the latest first.
  pub update_all-reports :
      (n : ℕ) (ss : List K)
      → 0 < n
      → (r : Lru K) × (update_all (new_lru n) ss ≡ some (r, reports n [] ss))
        × (values r.nodes ≡ take n (recent [] ss))
        × IsValid dec r
  unfolding new_lru
  update_all-reports n ss pos =
      let (r, steps, t) = Tracks-update_all n (new_lru n) [] ss pos tt (record {
        valid = new_lru-IsValid dec n;
        capacity = refl;
        window = sym (take_of_length-le n [] (omega arith));
      }) in
      (r, steps, t.window, t.valid)
