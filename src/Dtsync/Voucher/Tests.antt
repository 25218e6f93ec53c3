-- ===== src/Dtsync/Voucher/Tests.antt =====
-- The vouchers of dtsync at concrete bytes, and who may pull.
use go_legs.Prelude.{
  ℕ, ◌+◌, ◌≡◌, refl, ◌==◌, ltb, some, List, [], ◌∷◌, length, ok, err, arith, Bool-cases, inl, inr,
}
use go_legs.Announce.Gossip.Concrete.{coder, coder-IsCbor, put_cid, put_header}
use go_legs.Announce.Gossip.Limits.{always}
use go_legs.Dtsync.Voucher.{
  Voucher, invalid, peer_not_allowed, marshal_voucher, marshal_result, unmarshal_voucher,
  unmarshal_result, validate_push, validate_pull,
}
use go_legs.Dtsync.Voucher.RoundTrip.{Appends, IsTagged, unmarshal_voucher-marshal_voucher}

abbrev sent : Voucher (List ℕ)
sent = record { head = some (1 ∷ 85 ∷ 18 ∷ []) }

abbrev no_links : List ℕ → List ℕ
no_links r = r

-- The initial byte of a byte string is less than that of null.
coder-IsTagged : IsTagged coder-IsCbor always no_links
unfolding coder put_cid put_header
coder-IsTagged [] bytes e = cc
coder-IsTagged (b ∷ bs) bytes e = elim (Bool-cases (ltb (length (b ∷ bs)) 24)) [
  | inl short ↦ (64 + length (b ∷ bs), b ∷ bs, ground (arith, short), ground (arith, short))
  | inr long ↦ (88, length (b ∷ bs) ∷ b ∷ bs, ground (arith, long), ground arith)
]

unmarshal_voucher-marshal_voucher_example :
    Appends
      (unmarshal_voucher coder no_links)
      sent
      []
      (161 ∷ 100 ∷ 72 ∷ 101 ∷ 97 ∷ 100 ∷ 67 ∷ 1 ∷ 85 ∷ 18 ∷ [])
    × Appends
        (unmarshal_result coder no_links)
        (record { code = 300 })
        []
        (161 ∷ 100 ∷ 67 ∷ 111 ∷ 100 ∷ 101 ∷ 27 ∷ 0 ∷ 0 ∷ 0 ∷ 0 ∷ 0 ∷ 0 ∷ 1 ∷ 44 ∷ [])
unfolding coder put_cid put_header marshal_voucher marshal_result
unmarshal_voucher-marshal_voucher_example =
    unmarshal_voucher-marshal_voucher coder-IsCbor always no_links coder-IsTagged sent
      (record { code = 300 }) [] _ _ (omega arith) refl refl

pull_refused : validate_pull (some (λ p. p == 4)) 5 sent ≡ err peer_not_allowed
unfolding validate_pull
pull_refused = refl

pull_allowed : validate_pull (some (λ p. p == 5)) 5 sent ≡ ok (record { code = 0 })
unfolding validate_pull
pull_allowed = refl

push_refused : validate_push {Peer = ℕ} 5 sent ≡ err invalid
unfolding validate_push
push_refused = refl
