-- ===== src/Announce/Lru/Tests.antt =====
-- announce/string_lru.go as announce/string_lru_test.go uses it, with numbers for the strings.
use go_legs.Prelude.{
  ℕ, ◌≡◌, refl, some, List, [], ◌∷◌, true, false, take, remove, contains, arith, ℕ_discrete,
}
use go_legs.Announce.Lru.{Lru, new_lru, update, remove_key}
use go_legs.Announce.Lru.Nodes.{values}
use go_legs.Announce.Lru.Refines.{IsValid, new_lru-IsValid, update-refines, remove_key-refines}
use go_legs.Announce.Lru.History.{update_all, reports, recent, update_all-reports}

-- hello, hello, foo, bar, baz, hello, bar
abbrev test_update : List ℕ
test_update = 1 ∷ 1 ∷ 2 ∷ 3 ∷ 4 ∷ 1 ∷ 3 ∷ []

hits :
    reports ℕ_discrete 3 [] test_update ≡ false ∷ true ∷ false ∷ false ∷ false ∷ false ∷ true ∷ []
unfolding reports contains take remove ℕ_discrete
hits = refl

last_used : take 3 (recent ℕ_discrete [] test_update) ≡ 3 ∷ 1 ∷ 4 ∷ []
unfolding recent take remove ℕ_discrete
last_used = refl

update_all-reports_example :
    (r : Lru ℕ) × (update_all ℕ_discrete (new_lru 3) test_update
      ≡ some (r, reports ℕ_discrete 3 [] test_update))
    × (values r.nodes ≡ take 3 (recent ℕ_discrete [] test_update))
    × IsValid ℕ_discrete r
update_all-reports_example = update_all-reports ℕ_discrete 3 test_update (omega arith)

-- The cache after the test.
abbrev used : Lru ℕ
used = (update_all-reports ℕ_discrete 3 test_update (omega arith)).0

used-IsValid : IsValid ℕ_discrete used
used-IsValid = (update_all-reports ℕ_discrete 3 test_update (omega arith)).3

remove_key-refines_example :
    IsValid ℕ_discrete (remove_key ℕ_discrete used 3).0
    × (values (remove_key ℕ_discrete used 3).0.nodes ≡ remove ℕ_discrete 3 (values used.nodes))
    × ((remove_key ℕ_discrete used 3).1 ≡ contains ℕ_discrete 3 (values used.nodes))
remove_key-refines_example = remove_key-refines ℕ_discrete used 3 used-IsValid

-- A cache that was used once.
abbrev once : Lru ℕ
unfolding new_lru
once = (update-refines ℕ_discrete (new_lru 3) 7 (new_lru-IsValid ℕ_discrete 3) (omega arith)).0

once-IsValid : IsValid ℕ_discrete once
unfolding new_lru once
once-IsValid =
    (update-refines ℕ_discrete (new_lru 3) 7 (new_lru-IsValid ℕ_discrete 3) (omega arith)).2

once-max : once.max ≡ 3
unfolding new_lru once
once-max = (update-refines ℕ_discrete (new_lru 3) 7 (new_lru-IsValid ℕ_discrete 3) (omega arith)).4

update-refines_example :
    (r : Lru ℕ) × (update ℕ_discrete once 7 ≡ some (r, contains ℕ_discrete 7 (values once.nodes)))
    × IsValid ℕ_discrete r
    × (values r.nodes ≡ take once.max (7 ∷ remove ℕ_discrete 7 (values once.nodes)))
    × (r.max ≡ once.max)
update-refines_example = update-refines ℕ_discrete once 7 once-IsValid (omega (arith, once-max))
