-- ===== src/Dtsync/Publisher/Tests.antt =====
-- The publisher of dtsync at concrete roots.
use go_legs.Prelude.{
  ℕ, ◌≡◌, refl, true, false, Option, none, some, List, [], ◌∷◌, ◌++◌, ℕ_discrete, inl, ok, ap,
}
use go_legs.Announce.Gossip.Concrete.{coder, coder-IsCbor, put_cid, put_header}
use go_legs.Dtsync.Transfers.Texts.{index_of}
use go_legs.Head.{Dialled, dialled, query_root_cid, serve_head}
use go_legs.Dtsync.SetUp.{Text, SetUp, register_voucher}
use go_legs.Dtsync.Publisher.{
  DtPublisher, made, not_made, no_data_transfer, with_extra_data, new_publisher,
  update_root_with_addrs, close_publisher,
}
use go_legs.Dtsync.Publisher.Announces.{Announces, update_root_with_addrs-Announces}

abbrev tail_of : List ℕ → List ℕ
tail_of [] = []
tail_of (x ∷ xs) = xs

abbrev head_of : List ℕ → ℕ
head_of [] = 0
head_of (x ∷ xs) = x

unfoldable same_list : Discrete (List ℕ)
same_list [] [] = yes refl
same_list [] (y ∷ ys) = no (λ r. cc)
same_list (x ∷ xs) [] = no (λ r. cc)
same_list (x ∷ xs) (y ∷ ys) = elim (ℕ_discrete x y) [
  | no n ↦ no (λ r. n (ap head_of r))
  | yes e ↦ elim (same_list xs ys) [
    | no n ↦ no (λ r. n (ap tail_of r))
    | yes q ↦ yes (λ i. e i ∷ q i)
  ]
]

abbrev cid_one : List ℕ
cid_one = 1 ∷ 85 ∷ 18 ∷ []

-- The text of a CID is "Q" and its bytes.
abbrev text_of : List ℕ → List ℕ
text_of c = 81 ∷ c

abbrev read_text : List ℕ → Option (List ℕ)
read_text [] = none
read_text (q ∷ c) = some c

abbrev always_dialled : List ℕ → Dialled
always_dialled pid = dialled

abbrev sends : List ℕ → Option Text
sends buf = none

abbrev no_errors : SetUp
no_errors = record {
  new_error = none;
  voucher_error = none;
  result_error = none;
  start_error = none;
  ready_error = none;
  transport_error = none;
}

abbrev before : DtPublisher (List ℕ)
before = record {
  head_publisher = record { published_root = [] };
  extra_data = 9 ∷ [];
  payloads = [];
  owns_data_transfer = true;
  owns_topic = true;
  is_closed = false;
}

abbrev after : DtPublisher (List ℕ)
after = record before {
  head_publisher = record { published_root = cid_one };
  payloads = (131 ∷ 67 ∷ 1 ∷ 85 ∷ 18 ∷ 129 ∷ 66 ∷ 4 ∷ 127 ∷ 65 ∷ 9 ∷ []) ∷ [];
}

makes : new_publisher ℕ ℕ [] no_errors none (with_extra_data ℕ ℕ (9 ∷ []) ∷ []) ≡ made before
unfolding new_publisher with_extra_data
makes = refl

-- A data transfer that does not start cancels the topic that was made for the publisher.
cancels :
    new_publisher {Cid = List ℕ} ℕ ℕ [] (record no_errors { start_error = some [] }) none []
    ≡ not_made no_data_transfer true
unfolding new_publisher
cancels = refl

update_root_with_addrs-Announces_example :
    (query_root_cid [] read_text true always_dialled
        (λ pid path. some (serve_head same_list [] text_of path after.head_publisher))
        (λ resp. some resp.body)
        (116 ∷ [])
      ≡ ok cid_one)
    × (buf : List ℕ) × (after.payloads ≡ [] ++ buf ∷ [])
    × (sends buf ≡ none)
    × Announces same_list [] coder
        (λ (a : List ℕ). a)
        sends
        some
        cid_one
        (some (4 ∷ 127 ∷ []) ∷ [])
        (9 ∷ [])
        buf
unfolding coder put_cid put_header update_root_with_addrs same_list
update_root_with_addrs-Announces_example =
    update_root_with_addrs-Announces same_list [] coder (λ a. a) sends coder-IsCbor some (λ a. refl)
      text_of read_text always_dialled (116 ∷ []) cid_one (some (4 ∷ 127 ∷ []) ∷ []) before after
      (inl refl) (81, cid_one, refl, refl) refl

-- The second Close does nothing.
closes_once :
    (close_publisher (some []) none none (close_publisher none none none before).1).0 ≡ ([], 0)
unfolding close_publisher
closes_once = refl

registered_before : register_voucher (some (120 ∷ 58 ∷ [])) none ≡ true
unfolding register_voucher index_of
registered_before = refl
