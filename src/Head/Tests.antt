-- ===== src/Head/Tests.antt =====
-- The head protocol at a concrete topic.
use go_legs.Prelude.{
  ℕ, ◌-◌, ◌+◌, ◌≡◌, refl, true, Option, none, some, List, [], ◌∷◌, ◌++◌, ℕ_discrete, inr, ok,
  if◌then◌else◌,
}
use go_legs.Head.{
  Dialled, dialled, not_supported, derive_protocol_id, old_protocol_id, update_head, serve_head,
  query_root_cid, legs_head, version,
}
use go_legs.Head.Paths.{is_same}
use go_legs.Head.Query.{query_root_cid-update_head}

-- "/t" and its protocol ID, whose slashes are joined.
abbrev slash_topic : List ℕ
slash_topic = 47 ∷ 116 ∷ []

protocol_joined : derive_protocol_id slash_topic ≡ legs_head ++ 47 ∷ 116 ∷ 47 ∷ version
unfolding derive_protocol_id
protocol_joined = refl

-- A provider that was not upgraded.
abbrev dial_old : List ℕ → Dialled
unfolding is_same
dial_old pid = if is_same pid (old_protocol_id slash_topic) then dialled else not_supported

abbrev digit_text : ℕ → List ℕ
digit_text c = (c + 48) ∷ []

abbrev read_digit : List ℕ → Option ℕ
read_digit (d ∷ []) = some (d - 48)
read_digit _ = none

query_root_cid-update_head_example :
    query_root_cid 0 read_digit true dial_old
      (λ pid path.
        some
          (serve_head ℕ_discrete 0 digit_text path (update_head 5 (record { published_root = 0 }))))
      (λ resp. some resp.body)
      slash_topic
    ≡ ok 5
unfolding dial_old derive_protocol_id
query_root_cid-update_head_example =
    query_root_cid-update_head ℕ_discrete 0 digit_text read_digit dial_old slash_topic 5
      (record { published_root = 0 }) (inr (refl, refl)) (λ ne. (53, [], refl, refl))
