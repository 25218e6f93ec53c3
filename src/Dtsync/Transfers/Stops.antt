-- ===== src/Dtsync/Transfers/Stops.antt =====
-- dtsync/sync.go: the error by which the hook for incoming blocks ends a transfer, and what `onEvent`
-- makes of it.
use mathlib.Core.List.{append_assoc}
use go_legs.Prelude.{
  ℕ, ◌+◌, ◌≡◌, refl, sym, subst, Bool, false, length, drop, take, none, some, List, [], ◌∷◌, ◌++◌,
  Result, ok, arith, drop-append, take-append, length-append, ◌∙◌,
}
use go_legs.Dtsync.Transfers.{
  rate_limit_error, SyncKey, DtSync, DtTexts, hit_rate_limit, content_not_found, failed_transfer,
  stopped_at, failure_of, signal_done, on_event, incoming_block,
}
use go_legs.Dtsync.Transfers.Texts.{index_of, has_suffix, index_of-append, index_of_new}

-- The CID is read from behind the marker and one byte, up to the first ")".
stopped_at-text :
    {Cid : Type 0} (decode : List ℕ → Result (List ℕ) Cid) (pre text post : List ℕ) (c : Cid)
    → decode text ≡ ok c
    → index_of (41 ∷ []) text ≡ none
    → stopped_at decode ((pre ++ (hit_rate_limit ++ 40 ∷ [])) ++ (text ++ 41 ∷ post)) (length pre)
      ≡ some (rate_limit_error ((pre ++ (hit_rate_limit ++ 40 ∷ [])) ++ (text ++ 41 ∷ post)) c)
unfolding stopped_at
stopped_at-text decode pre text post c decoded plain =
    let head = pre ++ (hit_rate_limit ++ 40 ∷ []) in
    let tail = text ++ 41 ∷ post in
    let measured : length head ≡ length pre + length hit_rate_limit + 1 =
      omega (arith, length-append pre (hit_rate_limit ++ 40 ∷ [])) in
    let dropped : drop (length pre + length hit_rate_limit + 1) (head ++ tail) ≡ tail =
      rw (← measured) (drop-append head tail) in
    let taken : take (length text) tail ≡ text = take-append text (41 ∷ post) in
    let found : index_of (41 ∷ []) tail ≡ some (length text) = index_of_new 41 text post plain in
    ground (arith, measured, dropped, taken, found, decoded, length-append head tail)

failure_of-text :
    {Cid : Type 0} (texts : DtTexts) (decode : List ℕ → Result (List ℕ) Cid)
    (pre text post : List ℕ) (c : Cid)
    → decode text ≡ ok c
    → index_of (41 ∷ []) text ≡ none
    → index_of hit_rate_limit (pre ++ hit_rate_limit) ≡ some (length pre)
    → (msg : List ℕ) → msg ≡ (pre ++ (hit_rate_limit ++ 40 ∷ [])) ++ (text ++ 41 ∷ post)
    → has_suffix content_not_found msg ≡ false
    → failure_of texts decode msg ≡ some (rate_limit_error msg c)
unfolding failure_of
failure_of-text texts decode pre text post c decoded plain first msg e not_missing =
    let stop = stopped_at-text decode pre text post c decoded plain in
    let shape : msg ≡ (pre ++ hit_rate_limit) ++ (40 ∷ (text ++ 41 ∷ post)) =
      e ∙ rw (append_assoc, append_assoc, append_assoc) refl in
    let marked : index_of hit_rate_limit msg ≡ some (length pre) =
      rw shape (index_of-append hit_rate_limit (pre ++ hit_rate_limit) _ (length pre) first) in
    let stopped : stopped_at decode msg (length pre) ≡ some (rate_limit_error msg c) =
      subst (λ m. stopped_at decode m (length pre) ≡ some (rate_limit_error m c)) (sym e) stop in
    rw (failure_of, marked, stopped, not_missing) refl

module _ {Cid Peer Limiter World : Type 0} (same_key : Discrete (SyncKey Cid Peer))
    (texts : DtTexts) (decode : List ℕ → Result (List ℕ) Cid) (cid_text : Cid → List ℕ)
    (allow : Limiter → World → Bool × World) where
  -- If the hook ends a transfer at a block, it has not called the block hook for it, and the message
  -- of the failed transfer, with the error in it, makes `onEvent` signal a rate limit error with the
  -- CID of that block. The message may have text before and after the error, but no earlier marker,
  -- and it does not end in "content not found"; the text of the CID is decoded to it, and has no ")".
  pub on_event-incoming_block :
      (p : Peer) (size : ℕ) (c : Cid) (s t : DtSync Cid Peer Limiter World) (text pre post : List ℕ)
      → incoming_block allow cid_text p size c s ≡ (some text, t)
      → decode (cid_text c) ≡ ok c
      → index_of (41 ∷ []) (cid_text c) ≡ none
      → index_of hit_rate_limit (pre ++ hit_rate_limit) ≡ some (length pre)
      → (msg : List ℕ) → msg ≡ pre ++ (text ++ post)
      → has_suffix content_not_found msg ≡ false
      → (k : SyncKey Cid Peer) (u : DtSync Cid Peer Limiter World)
      → (t.hooked ≡ s.hooked)
        × (on_event same_key texts decode failed_transfer msg k u
            ≡ signal_done same_key k (some (rate_limit_error msg c)) u)
  unfolding incoming_block on_event
  on_event-incoming_block p size c s t text pre post hooked decoded plain first msg e not_missing k
        u =
      let shape : text ≡ hit_rate_limit ++ 40 ∷ (cid_text c ++ 41 ∷ []) = ground arith in
      let whole : msg ≡ (pre ++ (hit_rate_limit ++ 40 ∷ [])) ++ (cid_text c ++ 41 ∷ post) =
        e ∙ rw shape (simp append_assoc) in
      let failure =
        failure_of-text texts decode pre (cid_text c) post c decoded plain first msg whole
          not_missing in
      (ground arith, rw (on_event, failure) refl)
