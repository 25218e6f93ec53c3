-- ===== src/Httpsync/Heads/Tests.antt =====
-- Signed heads with a toy signature, the key before the message.
use go_legs.Prelude.{
  ℕ, ◌≡◌, refl, true, Option, none, some, List, [], ◌∷◌, ◌++◌, length, take, drop, take-append,
  drop-append, ok, err, ite, ℕ_discrete, arith,
}
use go_legs.Head.Paths.{is_same}
use go_legs.Httpsync.Heads.{
  SignedHead, Crypto, unexpected_peer, invalid_signature, get_signed_head, open_signed_head,
  HttpPublisher, set_http_root, new_http_publisher, Loaded, not_exists, serve_http,
}
use go_legs.Httpsync.Heads.Genuine.{
  IsCrypto, IsGenuine, get_signed_head-IsGenuine, get_signed_head-serve_http,
}

is_same_refl : (xs : List ℕ) → is_same xs xs ≡ true
unfolding is_same
is_same_refl [] = refl
is_same_refl (x ∷ xs) = ground (arith, is_same_refl xs)

abbrev read_key : List ℕ → Option ℕ
read_key (k ∷ []) = some k
read_key _ = none

abbrev put_envelope : SignedHead ℕ → Option (List ℕ)
put_envelope e = some (e.head ∷ length e.sig ∷ (e.sig ++ e.pubkey))

abbrev get_envelope : List ℕ → Option (SignedHead ℕ)
get_envelope (c ∷ n ∷ r) = some (record { head = c; sig = take n r; pubkey = drop n r })
get_envelope _ = none

abbrev toy : Crypto ℕ ℕ ℕ ℕ
toy = record {
  cid_bytes = λ c. c ∷ [];
  sign = λ k m. some (k ∷ m);
  get_public = λ k. k;
  marshal_public_key = λ k. some (k ∷ []);
  unmarshal_public_key = read_key;
  verify = λ k m sig. some (is_same sig (k ∷ m));
  id_from_public_key = λ k. some k;
  encode = put_envelope;
  decode = get_envelope;
}

toy-IsCrypto : IsCrypto toy
toy-IsCrypto = record {
  verify-sign = λ k m sig h. ground (arith, is_same_refl (k ∷ m));
  unmarshal-marshal_key = λ k bytes h. ground arith;
  decode-encode =
      λ e bytes h. ground (arith, take-append e.sig e.pubkey, drop-append e.sig e.pubkey);
}

abbrev no_cid : List ℕ → Option ℕ
no_cid text = none

abbrev nothing : ℕ → Loaded
nothing c = not_exists

abbrev published : HttpPublisher ℕ ℕ
published = record { root = 0; priv_key = 4 }

get_signed_head-serve_http_example :
    get_signed_head toy ℕ_discrete 5 (some (8 ∷ 2 ∷ 4 ∷ 8 ∷ 4 ∷ []))
    ≡ ite (ℕ_discrete 4 5) (ok 8) (err unexpected_peer)
unfolding serve_http set_http_root is_same take drop
get_signed_head-serve_http_example =
    get_signed_head-serve_http toy toy-IsCrypto ℕ_discrete 4 5 no_cid nothing 8 published refl
      (record { status_code = 200; body = 8 ∷ 2 ∷ 4 ∷ 8 ∷ 4 ∷ [] }) refl refl

get_signed_head-IsGenuine_example : IsGenuine toy 5 9 (9 ∷ 2 ∷ 5 ∷ 9 ∷ 5 ∷ [])
unfolding get_signed_head is_same take drop ℕ_discrete
get_signed_head-IsGenuine_example =
    get_signed_head-IsGenuine toy ℕ_discrete 5 (9 ∷ 2 ∷ 5 ∷ 9 ∷ 5 ∷ []) 9 refl

bad_signature : open_signed_head toy 4 (8 ∷ 2 ∷ 5 ∷ 8 ∷ 4 ∷ []) ≡ err invalid_signature
unfolding open_signed_head is_same take drop
bad_signature = refl

key_required : new_http_publisher {Cid = ℕ} {Priv = ℕ} 0 none true true ≡ none
unfolding new_http_publisher
key_required = refl
