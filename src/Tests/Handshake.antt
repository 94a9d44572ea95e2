-- ===== src/Tests/Handshake.antt =====
-- Runs of the theorems on payments over x402 and on the rate limiter.
use t3_spend.X402.{x402_fee_headroom_atoms}
use t3_spend.Prelude.{
  ◌+◌, ℕ, ◌≡◌, ◌≤◌, refl, none, some, List, [], ◌∷◌, ◌++◌, true, false, arith, Bool,
}
use t3_spend.Prelude.Lists.{length}
use t3_spend.Prelude.Texts.{Text, codes}
use t3_spend.Prelude.Failures.{ok}
use t3_spend.Chains.{ChainId, usdc, target_address, delegation_manager}
use t3_spend.Types.{WireDelegation}
use t3_spend.Delegations.{DelegationKit}
use t3_spend.Money.{parse_atoms, usdc_to_atoms}
use t3_spend.Store.{ChargeRow, Store}
use t3_spend.Store.Tree.{ancestor_chain}
use t3_spend.Store.Tree.Members.{All}
use t3_spend.Store.Charges.{insert_charge}
use t3_spend.Spend.Validate.{assert_chain_spendable}
use t3_spend.Spend.Budget.{HasRoom}
use t3_spend.X402.{
  X402Requirement, X402PayloadBody, Payer, requirement_matches_rail, x402_charge,
  build_x402_payload,
}
use t3_spend.X402.Reserved.{build_x402_payload-HasRoom}
use t3_spend.X402.Facilitator.{Facility, Verdict, valid, verify_x402, Settlement, settle_x402}
use t3_spend.X402.Settled.{Landed, settle_x402-Landed}
use t3_spend.RateLimit.{recent, client_ip, forwarded, new_limiter}
use t3_spend.RateLimit.History.{Call, times, grants, answers, InOrder}
use t3_spend.RateLimit.Bounds.{passed, EndsBy, answers-grants, answers-bounded}
use t3_spend.RateLimit.Proxies.{client_ip-forged}
use t3_spend.Tests.{before, plain_kit}

abbrev requirement : X402Requirement
requirement = record {
  scheme = codes "exact";
  network = codes "eip155:8453";
  amount = codes "1000000";
  asset = codes "0x833589fCD6eDb6E08f4c7C32D4f71b54bdA02913";
  pay_to = codes "0x02";
  transfer_method = none;
}

abbrev payer : Payer
payer = record {
  kit = plain_kit;
  chain_id = ChainId.base;
  now = 60;
  sign_leaf = λ key parent from scope pins. ok parent;
  encode_delegations = λ ds. ok (codes "0xctx");
  fresh_charge = 5;
  between = λ s. s;
}

abbrev body : X402PayloadBody
body = record {
  delegation_manager = codes "0xdb9B1e94B5b69Df7e401DDbedE43491141047dB3";
  permission_context = codes "0xctx";
  delegator = codes "0x01";
}

built :
    build_x402_payload payer 2 requirement before
    ≡ (ok (body, 1000000), (build_x402_payload payer 2 requirement before).1)
unfolding build_x402_payload requirement_matches_rail t3_spend.Prelude.Texts.text_eq
    t3_spend.Prelude.Texts.same_address usdc parse_atoms ancestor_chain assert_chain_spendable
    t3_spend.X402.reserve_payload t3_spend.Spend.Validate.validate_spend t3_spend.X402.x402_request
    t3_spend.Store.Accounting.subtree_uses_count usdc_to_atoms
    t3_spend.Store.Accounting.subtree_spent_lifetime
    t3_spend.Spend.Pipeline.Leaves.delegations_for_mode t3_spend.X402.x402_leaf insert_charge
    x402_charge delegation_manager t3_spend.Store.Users.get_user t3_spend.X402.payload_body
built = refl

build_x402_payload-HasRoom_example :
    (requirement_matches_rail requirement ChainId.base ≡ none)
    × (assert_chain_spendable (ancestor_chain 2 before) 60 ≡ ok tt)
    × (row : ChargeRow) × (row.card_id ≡ 2)
    × (parse_atoms (codes "1000000") ≡ ok row.amount_atoms)
    × (row.to_addr ≡ some (codes "0x02"))
    × (row.fee_atoms ≡ x402_fee_headroom_atoms)
    × All (HasRoom before 60 (row.amount_atoms + row.fee_atoms) 1) (ancestor_chain 2 before)
    × (insert_charge row before ≡ ok ((build_x402_payload payer 2 requirement before).1))
build_x402_payload-HasRoom_example = build_x402_payload-HasRoom payer 2 requirement before built

abbrev leaf : WireDelegation
leaf = record {
  delegate = codes "0x26a529124f0bbf9af9d8f9f84a43efe47cf1199a";
  delegator = codes "0x01";
  authority = codes "r";
  caveats = [];
  salt = codes "0";
  signature = codes "s";
}

abbrev encoders : DelegationKit
encoders = record {
  root_authority = codes "root";
  hash_delegation = λ d. d.salt;
  sign_account = λ account d chain. ok account;
  sign_key = λ pk d manager chain. ok pk;
  recover = λ domain d signature. ok signature;
  is_address_equal = λ a b. ok true;
  delegator_impl = λ chain. none;
  transaction_count = λ a chain. ok 0;
  code_of = λ a chain. ok none;
  sign_authorization = λ a impl chain nonce. ok (none, codes "r", codes "s");
  to_hex = λ n. codes "0x";
  chain_hex = λ chain. codes "0x";
  encode_transfer = λ to n. ok to;
  encode_approve = λ to n. ok to;
}

-- A relayer that asks for a fee of two cents at first, and whose transaction is confirmed.
abbrev facility : Facility
facility = record {
  delegations = encoders;
  chain_id = ChainId.base;
  decode = λ t. some (leaf ∷ []);
  has_code = λ a. ok true;
  jitter = λ n. n;
  min_fee = ok (codes "0.01");
  simulate = λ tx.
      ok (record { success = true; error = none; required_payment_amount = none; context = none });
  estimate = λ left tx. ok (record {
    success = true;
    error = none;
    required_payment_amount = some (codes "20000");
    context = some (codes "ctx");
  });
  via_chain = false;
  block_number = ok 0;
  send = λ tx context. ok (codes "request");
  polls = λ request since. [];
  wait_for_status = λ request. ok (record { status = some 200; tx_hash = some (codes "0xfe") });
}

abbrev settlement : Settlement
settlement = record { tx_hash = some (codes "0xfe"); fee_atoms = 20000; payer = codes "0x01" }

settles : settle_x402 facility body requirement ≡ ok settlement
unfolding settle_x402 verify_x402 t3_spend.X402.Facilitator.check_form requirement_matches_rail
    t3_spend.Prelude.Texts.text_eq t3_spend.Prelude.Texts.same_address usdc delegation_manager
    target_address t3_spend.X402.Facilitator.simulated usdc_to_atoms parse_atoms
    t3_spend.Delegations.erc20_transfer_execution t3_spend.X402.Facilitator.settle_loop
    t3_spend.Spend.Pipeline.required_fee t3_spend.Spend.Confirm.status_to_confirmation
settles = refl

settle_x402-Landed_example :
    (payer : Text) × (verify_x402 facility body requirement ≡ ok (valid payer))
    × (ds : List WireDelegation) × (some (leaf ∷ []) ≡ some ds)
    × Landed facility requirement ds settlement
    × (codes "0x01" ≡ codes "0x01")
settle_x402-Landed_example = settle_x402-Landed facility body requirement settles

-- Three requests of one address within a second and one of another, then one more after the window.
abbrev calls : List Call
calls =
    (codes "a", 10) ∷ (codes "a", 20) ∷ (codes "b", 30) ∷ (codes "a", 40) ∷ (codes "a", 1015) ∷ []

calls-InOrder : InOrder 0 calls
calls-InOrder = (omega arith, (omega arith, (omega arith, (omega arith, (omega arith, tt)))))

calls-EndsBy : EndsBy 1015 calls
calls-EndsBy = (omega arith, (omega arith, (omega arith, (omega arith, (omega arith, tt)))))

answers-grants_example : answers (new_limiter 2 1000) calls ≡ grants 2 1000 [] calls
answers-grants_example = answers-grants 2 1000 calls calls-InOrder

answers-bounded_example :
    length
      (recent 1000 1015 (times (codes "a") (passed calls (answers (new_limiter 2 1000) calls))))
    ≤ 2
answers-bounded_example = answers-bounded 2 1000 1015 (codes "a") calls calls-InOrder calls-EndsBy

client_ip-forged_example :
    client_ip 1 (some (codes "6.6.6.6" ++ 44 ∷ codes " 1.2.3.4")) none
    ≡ client_ip 1 (some (codes " 1.2.3.4")) none
unfolding forwarded t3_spend.Money.trim
client_ip-forged_example = client_ip-forged 1 (codes "6.6.6.6") (codes " 1.2.3.4") none enough
  where
    enough : 1 ≤ length (forwarded (codes " 1.2.3.4"))
    enough = omega arith
