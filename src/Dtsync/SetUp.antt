-- ===== src/Dtsync/SetUp.antt =====
-- dtsync/util.go, and the constructors of dtsync/sync.go: the set-up of a data transfer. The calls of
-- go-data-transfer are parameters: the error that they give, or none.
use go_legs.Prelude.{
  ℕ, Bool, true, if◌then◌else◌, Option, none, some, List, [], ◌∷◌, is_none, is_some,
}
use go_legs.Dtsync.Waits.{new_waits}
use go_legs.Dtsync.Transfers.{DtSync}
use go_legs.Dtsync.Transfers.Texts.{index_of}

abbrev pub Text : Type 0
Text = List ℕ

-- "identifier already registered: LegsVoucher"
abbrev already_registered : Text
already_registered =
    105 ∷ 100 ∷ 101 ∷ 110 ∷ 116 ∷ 105 ∷ 102 ∷ 105 ∷ 101 ∷ 114 ∷ 32 ∷ 97 ∷ 108 ∷ 114 ∷ 101 ∷ 97 ∷ 100
    ∷ 121 ∷ 32 ∷ 114 ∷ 101 ∷ 103 ∷ 105 ∷ 115 ∷ 116 ∷ 101 ∷ 114 ∷ 101 ∷ 100 ∷ 58 ∷ 32 ∷ 76 ∷ 101
    ∷ 103 ∷ 115 ∷ 86 ∷ 111 ∷ 117 ∷ 99 ∷ 104 ∷ 101 ∷ 114 ∷ []

-- `registerVoucher`, with the errors of the two registrations: whether it fails.
unfoldable pub register_voucher : Option Text → Option Text → Bool
register_voucher none result_error = is_some result_error
register_voucher (some text) result_error = is_none (index_of already_registered text)

-- The errors of the calls that set up a data transfer.
pub record SetUp : Type 0 where
  pub new_error : Option Text
  pub voucher_error : Option Text
  pub result_error : Option Text
  pub start_error : Option Text
  pub ready_error : Option Text
  pub transport_error : Option Text

-- `makeDataTransfer`: whether it fails, in which case its context is cancelled.
unfoldable pub make_data_transfer_fails : SetUp → Bool
unfolding register_voucher
make_data_transfer_fails u =
    if is_some u.new_error
    then true
    else if register_voucher u.voucher_error u.result_error
    then true
    else if is_some u.start_error
    then true
    else is_some u.ready_error

-- `configureDataTransferForLegs`: whether it fails.
unfoldable pub configure_data_transfer_fails : SetUp → Bool
unfolding register_voucher
configure_data_transfer_fails u =
    if register_voucher u.voucher_error u.result_error then true else is_some u.transport_error

abbrev empty_sync :
    (Cid Peer Limiter : Type 0) {World : Type 0} → World → DtSync Cid Peer Limiter World
empty_sync Cid Peer Limiter w = record {
  waits = new_waits;
  rate_limiters = λ p. none;
  hooked = [];
  world = w;
}

module _ (Cid Peer Limiter : Type 0) {World : Type 0} where
  -- `NewSyncWithDT`, with the data transfer of the caller, and `NewSync`. `none` is an error.
  unfoldable pub new_sync_with_dt : SetUp → World → Option (DtSync Cid Peer Limiter World)
  unfolding register_voucher
  new_sync_with_dt u w =
      if register_voucher u.voucher_error u.result_error
      then none
      else some (empty_sync Cid Peer Limiter w)

  unfoldable pub new_sync : SetUp → World → Option (DtSync Cid Peer Limiter World)
  unfolding make_data_transfer_fails
  new_sync u w = if make_data_transfer_fails u then none else some (empty_sync Cid Peer Limiter w)
