-- ===== src/X402/Settled.antt =====
-- What a settlement of packages/engine/src/x402.ts has done.
use t3_spend.Prelude.{
  arith, ℕ, zero, suc, ◌≡◌, sym, ap, ◌∙◌, some, List, [], ◌∷◌, ltb, if◌then◌else◌, Option-cases,
  Bool-cases, inl, inr,
}
use t3_spend.Prelude.Texts.{Text, codes}
use t3_spend.Prelude.Failures.{Result, ok, ok_inj, >>=-eq-ok, Result-cases}
use t3_spend.Chains.{usdc, fee_collector}
use t3_spend.Delegations.{erc20_transfer_execution}
use t3_spend.Types.{WireDelegation, WireExecution}
use t3_spend.Money.{parse_atoms, usdc_to_atoms}
use t3_spend.Spend.Validate.{truthy}
use t3_spend.Spend.Network.{Transaction}
use t3_spend.Spend.Confirm.{Confirmation, ConfirmStatus}
use t3_spend.Spend.Pipeline.{required_fee}
use t3_spend.X402.{X402Requirement, X402PayloadBody}
use t3_spend.X402.Facilitator.{
  Facility, valid, invalid, build_executions, verify_x402, Settlement, confirmation,
  sent_transaction, settle_attempts, settle_loop, settle_x402, decode_x402_delegations,
}

-- An ERC-20 transfer of an amount of the settlement token to an address.
abbrev pub IsTransfer : Facility → Text → ℕ → WireExecution → Type 0
IsTransfer f to amount e =
    (e.target ≡ usdc f.chain_id)
    × (e.value ≡ codes "0")
    × (f.delegations.encode_transfer to amount ≡ ok e.payload)

-- Two executions: the amount that the requirement asks for to the recipient that it names, and a fee
-- to the fee collector.
pub record PaysAndFees (f : Facility) (req : X402Requirement) (fee : ℕ) (es : List WireExecution)
    : Type 0 where
  pub payment : WireExecution
  pub fee_leg : WireExecution
  pub both : es ≡ payment ∷ fee_leg ∷ []
  pub amount : ℕ
  pub asked : parse_atoms req.amount ≡ ok amount
  pub pays : IsTransfer f req.pay_to amount payment
  pub fees : IsTransfer f fee_collector fee fee_leg

-- The transaction of a settlement: it carries the payment and the fee, it was sent, and the request
-- that the relayer made of it was seen to be confirmed.
pub record Landed (f : Facility) (req : X402Requirement) (ds : List WireDelegation) (s : Settlement)
    : Type 0 where
  pub executions : List WireExecution
  pub built : PaysAndFees f req s.fee_atoms executions
  pub context : Text
  pub request : Text
  pub sent :
      f.send (record { permission_context = ds; executions = executions }) context ≡ ok request
  pub since : ℕ
  pub seen : Confirmation
  pub confirms : confirmation f request since s.fee_atoms ≡ ok seen
  pub status : seen.status ≡ ConfirmStatus.confirmed
  pub hash : s.tx_hash ≡ seen.tx_hash

erc20_transfer_execution-IsTransfer :
    (f : Facility) (to : Text) (amount : ℕ) {e : WireExecution}
    → erc20_transfer_execution f.delegations (usdc f.chain_id) to amount ≡ ok e
    → IsTransfer f to amount e
unfolding erc20_transfer_execution
erc20_transfer_execution-IsTransfer f to amount {e} h =
    let (payload, encoded, same) = >>=-eq-ok (f.delegations.encode_transfer to amount) _ h in
    let e' = ok_inj same in
    (
      sym (ap (λ (x : WireExecution). x.target) e'),
      sym (ap (λ (x : WireExecution). x.value) e'),
      encoded ∙ ap (λ (x : WireExecution). ok x.payload) e',
    )

build_executions-PaysAndFees :
    (f : Facility) (req : X402Requirement) (fee : ℕ) {es : List WireExecution}
    → build_executions f req fee ≡ ok es
    → PaysAndFees f req fee es
unfolding build_executions
build_executions-PaysAndFees f req fee h =
    let (amount, asked, h1) = >>=-eq-ok (parse_atoms req.amount) _ h in
    let (payment, pays, h2) =
      >>=-eq-ok (erc20_transfer_execution f.delegations (usdc f.chain_id) req.pay_to amount) _ h1 in
    let (fee_leg, fees, h3) =
      >>=-eq-ok (erc20_transfer_execution f.delegations (usdc f.chain_id) fee_collector fee)
        (λ e. ok (payment ∷ e ∷ [])) h2 in
    record {
      payment = payment;
      fee_leg = fee_leg;
      both = sym (ok_inj h3);
      amount = amount;
      asked = asked;
      pays = erc20_transfer_execution-IsTransfer f req.pay_to amount pays;
      fees = erc20_transfer_execution-IsTransfer f fee_collector fee fees;
    }

-- The block that the confirmation looks from on.
abbrev start_block : Facility → Result ℕ
start_block f = if f.via_chain then f.block_number else ok 0

sent_transaction-Landed :
    (f : Facility) (req : X402Requirement) (ds : List WireDelegation)
    (executions : List WireExecution) (context : Text) (fee : ℕ) (payer : Text) {out : Settlement}
    → build_executions f req fee ≡ ok executions
    → sent_transaction f
        (record { permission_context = ds; executions = executions })
        context
        fee
        payer
      ≡ ok out
    → Landed f req ds out × (out.payer ≡ payer)
unfolding sent_transaction
sent_transaction-Landed f req ds executions context fee payer {out} built h =
    let (since, _, h') = >>=-eq-ok (start_block f) _ h in
    elim (Result-cases
      (f.send (record { permission_context = ds; executions = executions }) context)) [
        | inr (e, failed) ↦ absurd (ground (arith, h', failed))
        | inl (request, sends) ↦ elim (Result-cases (confirmation f request since fee)) [
          | inr (e, failed) ↦ absurd (ground (arith, h', sends, failed))
          | inl (seen, confirms) ↦
              let paid : out.fee_atoms ≡ fee = ground (arith, h', sends, confirms) in
              (
                record {
                  executions = executions;
                  built =
                      build_executions-PaysAndFees f req out.fee_atoms
                        (ap (build_executions f req) paid ∙ built);
                  context = context;
                  request = request;
                  sent = sends;
                  since = since;
                  seen = seen;
                  confirms = ap (confirmation f request since) paid ∙ confirms;
                  status = ground (arith, h', sends, confirms);
                  hash = ground (arith, h', sends, confirms);
                },
                ground (arith, h', sends, confirms),
              )
        ]
      ]

settle_loop-Landed :
    (left : ℕ) (f : Facility) (body : X402PayloadBody) (req : X402Requirement)
    (ds : List WireDelegation) (fee : ℕ) {out : Settlement}
    → settle_loop left f body req ds fee ≡ ok out
    → Landed f req ds out × (out.payer ≡ body.delegator)
unfolding settle_loop
settle_loop-Landed zero f body req ds fee h = cc
settle_loop-Landed (suc left) f body req ds fee {out} h =
    elim (Result-cases (build_executions f req fee)) [
      | inr (e, failed) ↦ absurd (ground (arith, h, failed))
      | inl (executions, built) ↦
          let tx : Transaction = record { permission_context = ds; executions = executions } in
          elim (Result-cases (f.estimate left tx)) [
            | inr (e, failed) ↦ absurd (ground (arith, h, built, failed))
            | inl (est, estimated) ↦ elim (Result-cases (required_fee est fee)) [
              | inr (e, failed) ↦ absurd (ground (arith, h, built, estimated, failed))
              | inl (required, asked) ↦ elim (Bool-cases (ltb fee required)) [
                | inl more ↦
                    settle_loop-Landed left f body req ds (f.jitter required)
                      (ground (arith, h, built, estimated, asked, more))
                | inr enough ↦ elim (Option-cases (truthy est.context)) [
                  | inl missing ↦
                      absurd (ground (arith, h, built, estimated, asked, enough, missing))
                  | inr (context, given) ↦
                      sent_transaction-Landed f req ds executions context fee body.delegator built
                        (ground (arith, h, built, estimated, asked, enough, given))
                ]
              ]
            ]
          ]
    ]

-- A settlement returns only after the payload was found valid. Its transaction, which transfers the
-- amount of the requirement to its recipient and the fee that is reported to the fee collector, was
-- sent along the decoded delegations, and the request that the send returned was seen to be confirmed
-- for that fee. The payer it names is the payload's delegator.
pub settle_x402-Landed :
    (f : Facility) (body : X402PayloadBody) (req : X402Requirement) {out : Settlement}
    → settle_x402 f body req ≡ ok out
    → (payer : Text) × (verify_x402 f body req ≡ ok (valid payer))
      × (ds : List WireDelegation) × (f.decode body.permission_context ≡ some ds)
      × Landed f req ds out
      × (out.payer ≡ body.delegator)
unfolding settle_x402 decode_x402_delegations
settle_x402-Landed f body req {out} h = elim (Result-cases (verify_x402 f body req)) [
  | inr (e, failed) ↦ absurd (ground (arith, h, failed))
  | inl (invalid reason, refused) ↦ absurd (ground (arith, h, refused))
  | inl (valid payer, passed) ↦ elim (Option-cases (f.decode body.permission_context)) [
    | inl missing ↦ absurd (ground (arith, h, passed, missing))
    | inr (ds, decoded) ↦ elim (Result-cases f.min_fee) [
      | inr (e, failed) ↦ absurd (ground (arith, h, passed, decoded, failed))
      | inl (min_fee, fee_read) ↦ elim (Result-cases (usdc_to_atoms min_fee)) [
        | inr (e, failed) ↦ absurd (ground (arith, h, passed, decoded, fee_read, failed))
        | inl (base, parsed) ↦
            let (landed, same) =
              settle_loop-Landed settle_attempts f body req ds (f.jitter base) {out = out}
                (ground (arith, h, passed, decoded, fee_read, parsed)) in
            (payer, passed, ds, decoded, landed, same)
      ]
    ]
  ]
]
