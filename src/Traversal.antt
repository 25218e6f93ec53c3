-- ===== src/Traversal.antt =====
-- A traversal of go-ipld-prime over a link system, as the Syncers of dtsync and httpsync run it: the
-- package is a parameter, which either ends or asks the link system for a block and goes on with it. If
-- the link system has an error, so has the traversal.
use go_legs.Prelude.{Option, none, some, List, [], ◌∷◌, ◌++◌}

pub data Walk (Cid Block : Type 0) : Type 0 where
  finished walk_failed : Walk Cid Block
  load : Cid → (Block → Walk Cid Block) → Walk Cid Block

module _ {Cid Block : Type 0} (read : Cid → Option Block) where
  -- The traversal over blocks that are stored, with the CIDs that it has traversed: what `has` does
  -- with its `StorageReadOpener`.
  unfoldable pub walk_stored : Walk Cid Block → List Cid → Option (List Cid)
  walk_stored finished traversed = some traversed
  walk_stored walk_failed traversed = none
  walk_stored (load c go) traversed = elim (read c) [
    | none ↦ none
    | some block ↦ walk_stored (go block) (traversed ++ c ∷ [])
  ]
