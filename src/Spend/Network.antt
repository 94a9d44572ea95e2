-- ===== src/Spend/Network.antt =====
-- What a run of `spend` (packages/engine/src/spend.ts) meets outside its process: the relayer, the
-- chain, the signer, and at every `await` what other requests do to the store meanwhile.
use t3_spend.Prelude.{
  ℕ, Bool, true, false, ◌||◌, Option, none, some, List, [], ◌∷◌, ◌==◌, if◌then◌else◌,
}
use t3_spend.Prelude.Texts.{Text, codes, lower}
use t3_spend.Prelude.Failures.{
  Stage, RefusalCode, refusal, engine, invalid_terms, over_period_limit, over_lifetime_limit,
  card_expired, uses_exhausted, target_not_allowed, method_not_allowed, merchant_not_allowed,
  Result, ok, err,
}
use t3_spend.Types.{ChargeId, WireDelegation, WireExecution, WireCaveat, SpendMode}
use t3_spend.Store.{StoredAuth, UserRow, Store}
use t3_spend.Compiler.Scope.{LeafScope}
use t3_spend.Spend.Confirm.{RelayerStatus, Poll}

pub record Transaction : Type 0 where
  pub permission_context : List WireDelegation
  pub executions : List WireExecution

-- `EstimateResult`
pub record Estimate : Type 0 where
  pub success : Bool
  pub error : Option Text
  pub required_payment_amount : Option Text
  pub context : Option Text

-- The places where `spend` awaits; the number is that of the attempts left.
pub data Await : Type 0 where
  fee_data code auth block sent confirmed : Await
  signed estimated : ℕ → Await

pub record Network : Type 0 where
  -- `getFeeData(usdc).minFee`
  pub min_fee : Result Text
  pub jitter : ℕ → ℕ
  pub has_code : Result Bool
  -- the live account nonce, unless the read fails
  pub account_nonce : Option ℕ
  -- `encodeFunctionData` of `transfer`
  pub encode_transfer : Option Text → ℕ → Result Text
  -- the leaf that is carved from a parent and signed with a card's key
  pub sign_leaf :
      Text → WireDelegation → Text → LeafScope → Option (List WireCaveat) → Result WireDelegation
  pub estimate : ℕ → List Transaction → Option StoredAuth → Result Estimate
  pub fresh_id : ChargeId
  pub via_chain : Bool
  pub block_number : Result ℕ
  pub send : List Transaction → Text → Option StoredAuth → Result Text
  pub polls : List Poll
  pub wait_for_status : Result RelayerStatus
  -- what the other requests write during an `await`
  pub between : Await → Store → Store

-- `await r`
abbrev pub await {ℓ} : {A : Type ℓ} → Network → Await → Result A → Store → Result A × Store
await net at r s = (r, net.between at s)

-- `resolveStoredAuth`: the stored authorization, refused where the account has moved on.
unfoldable pub resolve_stored_auth : Stage → UserRow → Option ℕ → Result StoredAuth
resolve_stored_auth stage user live = elim user.auth7702 [
  | none ↦ err (engine stage)
  | some old ↦ elim live [
    | none ↦ ok old
    | some n ↦ if old.nonce == n then ok old else err (refusal invalid_terms)
  ]
]

unfoldable pub starts_with : Text → Text → Bool
starts_with [] s = true
starts_with (c ∷ p) [] = false
starts_with (c ∷ p) (d ∷ s) = elim (c == d) [ true ↦ starts_with p s | false ↦ false ]

-- A search for a word in a text.
unfoldable pub mentions : Text → Text → Bool
unfolding starts_with
mentions p [] = starts_with p []
mentions p (c ∷ s) = starts_with p (c ∷ s) || mentions p s

-- `refusalFromEstimateError`; the case of the letters is ignored.
unfoldable pub refusal_from_estimate_error : Text → SpendMode → Option RefusalCode
unfolding mentions lower
refusal_from_estimate_error error mode =
    let text = lower error in
    if mentions (codes "periodtransferenforcer") text
    then some over_period_limit
    else if mentions (codes "transferamountenforcer") text
    then some over_lifetime_limit
    else if mentions (codes "timestampenforcer") text
    then some card_expired
    else if mentions (codes "limitedcallsenforcer") text
    then some uses_exhausted
    else if mentions (codes "allowedtargetsenforcer") text
    then some target_not_allowed
    else if mentions (codes "allowedmethodsenforcer") text
    then some method_not_allowed
    else if mentions (codes "allowedcalldataenforcer") text
    then elim mode [ SpendMode.pay ↦ some merchant_not_allowed | SpendMode.contract ↦ none ]
    else none
