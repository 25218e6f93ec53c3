-- ===== src/Head/Paths.antt =====
-- Go's `path.Join` of a rooted path, and `path.Base`, on lists of bytes.
use go_legs.Prelude.{ℕ, ◌==◌, Bool, true, false, ◌&&◌, if◌then◌else◌, List, [], ◌∷◌, ◌++◌}

unfoldable pub is_same : List ℕ → List ℕ → Bool
is_same [] [] = true
is_same (x ∷ xs) (y ∷ ys) = (x == y) && is_same xs ys
is_same _ _ = false

-- The elements of a path, between slashes. The current one comes first.
abbrev push_byte : ℕ → List (List ℕ) → List (List ℕ)
push_byte b [] = (b ∷ []) ∷ []
push_byte b (e ∷ es) = (b ∷ e) ∷ es

unfoldable pub elements : List ℕ → List (List ℕ)
elements [] = [] ∷ []
elements (b ∷ bs) = let rest = elements bs in if b == 47 then [] ∷ rest else push_byte b rest

abbrev pop : List (List ℕ) → List (List ℕ)
pop [] = []
pop (e ∷ es) = es

-- The elements that `path.Clean` keeps of a rooted path, the last one first.
unfoldable pub cleaned : List (List ℕ) → List (List ℕ) → List (List ℕ)
unfolding is_same
cleaned [] kept = kept
cleaned ([] ∷ es) kept = cleaned es kept
cleaned ((b ∷ bs) ∷ es) kept = cleaned es (
    if is_same (b ∷ bs) (46 ∷ [])
    then kept
    else if is_same (b ∷ bs) (46 ∷ 46 ∷ [])
    then pop kept
    else (b ∷ bs) ∷ kept)

unfoldable pub rooted : List (List ℕ) → List ℕ
rooted [] = []
rooted (e ∷ es) = rooted es ++ 47 ∷ e

unfoldable pub all_elements : List (List ℕ) → List (List ℕ)
unfolding elements
all_elements [] = []
all_elements (p ∷ ps) = elements p ++ all_elements ps

-- `path.Join` where the first part is a rooted path and something is kept.
unfoldable pub path_join : List (List ℕ) → List ℕ
unfolding cleaned rooted all_elements
path_join parts = rooted (cleaned (all_elements parts) [])

-- The last element that is not empty; "/" if there is none, and "." for the empty path.
unfoldable pub last_element : List (List ℕ) → List ℕ → List ℕ
last_element [] last = last
last_element ([] ∷ es) last = last_element es last
last_element ((b ∷ bs) ∷ es) last = last_element es (b ∷ bs)

unfoldable pub path_base : List ℕ → List ℕ
unfolding elements last_element
path_base [] = 46 ∷ []
path_base (b ∷ bs) = last_element (elements (b ∷ bs)) (47 ∷ [])
