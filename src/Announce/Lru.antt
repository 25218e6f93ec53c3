-- ===== src/Announce/Lru.antt =====
-- announce/string_lru.go: the cache of announced CIDs. Go's map is a function, and container/list
-- is the list of its elements from front to back, each with its address. `none` is a nil panic.
pub mod Nodes
pub mod Links
pub mod Refines
pub mod History
mod Tests
use go_legs.Prelude.{
  ℕ, ◌+◌, ◌==◌, if◌then◌else◌, Bool, true, false, Option, none, some, List, [], ◌∷◌, ite, length,
}
use Nodes.{Node, find, unlink, move_to_front, back}

pub record Lru {ℓ} (K : Type ℓ) : Type ℓ where
  pub cache : K → Option ℕ
  pub nodes : List (Node K)
  -- The address of the element that is allocated next.
  pub fresh : ℕ
  pub max : ℕ

module _ {ℓ} {K : Type ℓ} where
  unfoldable pub new_lru : ℕ → Lru K
  new_lru max_entries = record { cache = λ _. none; nodes = []; fresh = 0; max = max_entries }

  unfoldable pub len : Lru K → ℕ
  len l = length l.nodes

module _ {ℓ} {K : Type ℓ} (dec : Discrete K) where
  -- `m[k] = v`, or `delete(m, k)` at `none`.
  unfoldable pub assign : (K → Option ℕ) → K → Option ℕ → K → Option ℕ
  assign m k v = λ j. ite (dec k j) v (m j)

  unfoldable pub remove_key : Lru K → K → Lru K × Bool
  unfolding assign unlink
  remove_key l s = elim (l.cache s) [
    | none ↦ (l, false)
    | some e ↦ (record l { nodes = unlink e l.nodes; cache = assign l.cache s none }, true)
  ]

  -- `l.ll.Len() == l.max`: the element at the back goes.
  unfoldable pub make_room : Lru K → Option (Lru K)
  unfolding back unlink assign
  make_room l =
      if length l.nodes == l.max
      then elim (back l.nodes) [
        | none ↦ none
        | some oldest ↦ some (record l {
          nodes = unlink oldest.address l.nodes;
          cache = assign l.cache oldest.value none;
        })
      ]
      else some l

  unfoldable pub push_front : Lru K → K → Lru K
  unfolding assign
  push_front l s = record l {
    nodes = record { address = l.fresh; value = s } ∷ l.nodes;
    cache = assign l.cache s (some l.fresh);
    fresh = l.fresh + 1;
  }

  unfoldable pub update : Lru K → K → Option (Lru K × Bool)
  unfolding move_to_front make_room push_front
  update l s = elim (l.cache s) [
    | some e ↦ some (record l { nodes = move_to_front e l.nodes }, true)
    | none ↦ elim (make_room l) [ none ↦ none | some roomy ↦ some (push_front roomy s, false) ]
  ]
