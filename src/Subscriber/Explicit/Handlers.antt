-- ===== src/Subscriber/Explicit/Handlers.antt =====
-- subscriber.go: handlers that come and go, and the latest sync of a publisher.
use go_legs.Prelude.{
  ℕ, ◌+◌, ◌≡◌, if◌then◌else◌, ltb, none, some, is_some, ite, arith, Option-cases, Bool-cases, inl,
  inr,
}
use go_legs.Subscriber.Async.{is_defined}
use go_legs.Subscriber.Explicit.{
  State, Parts, latest_undefined, get_or_create_handler, remove_handler, clean_idle,
  get_latest_sync, set_latest_sync,
}

module _ {Cid Peer Addr Node Limiter Hook : Type 0}
    (parts : Parts Cid Peer Addr Node Limiter Hook) where
  -- A handler that was asked for stays until the first cleaning after its time: cleaning keeps it if
  -- its time has not passed and removes it if it has, and treats the others as if it had not been
  -- asked for.
  pub clean_idle-get_or_create_handler :
      (now later : ℕ) (peer p : Peer) (s : State Cid Peer Addr)
      → (clean_idle parts later (get_or_create_handler parts now peer s)).handlers p
        ≡ ite
            (parts.same_peer p peer)
            (if ltb (now + s.idle_handler_ttl) later then none else some (now + s.idle_handler_ttl))
            ((clean_idle parts later s).handlers p)
  unfolding clean_idle get_or_create_handler
  clean_idle-get_or_create_handler now later peer p s = elim (parts.same_peer p peer) [
    | yes same ↦ ground (arith, same)
    | no other ↦ ground (arith, other)
  ]

  -- `SetLatestSync` of a CID that is defined is what `GetLatestSync` of the peer then finds, and the
  -- others find what they did; one of `cid.Undef` is an error and changes nothing.
  pub get_latest_sync-set_latest_sync :
      (now : ℕ) (peer p : Peer) (c : Cid) (s : State Cid Peer Addr)
      → ((set_latest_sync parts now peer c s).0
          ≡ (if is_defined parts.same_cid parts.undef c then none else some latest_undefined))
        × (get_latest_sync parts p (set_latest_sync parts now peer c s).1 ≡ (
            if is_defined parts.same_cid parts.undef c
            then ite (parts.same_peer p peer) (some c) (get_latest_sync parts p s)
            else get_latest_sync parts p s))
  unfolding set_latest_sync get_latest_sync
  get_latest_sync-set_latest_sync now peer p c s =
      elim (Bool-cases (is_defined parts.same_cid parts.undef c)) [
        | inl defined ↦ (ground (arith, defined), ground (arith, defined))
        | inr undefined ↦ (ground (arith, undefined), ground (arith, undefined))
      ]

  -- `RemoveHandler` tells whether there was a handler and leaves none, but `GetLatestSync` finds what
  -- it did before.
  pub get_latest_sync-remove_handler :
      (peer p : Peer) (s : State Cid Peer Addr)
      → ((remove_handler parts peer s).0 ≡ is_some (s.handlers peer))
        × ((remove_handler parts peer s).1.handlers peer ≡ none)
        × (get_latest_sync parts p (remove_handler parts peer s).1 ≡ get_latest_sync parts p s)
  unfolding remove_handler get_latest_sync
  get_latest_sync-remove_handler peer p s = elim (Option-cases (s.handlers peer)) [
    | inl absent ↦ (ground (arith, absent), ground (arith, absent), ground (arith, absent))
    | inr (expires, present) ↦
        (ground (arith, present), ground (arith, present), ground (arith, present))
  ]
