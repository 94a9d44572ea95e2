-- ===== src/Tests.antt =====
-- A small tree of cards and a spend on it, on which the theorems are run. The runs are in the modules
-- below.
pub mod Trees
pub mod Spending
pub mod Controls
pub mod Issuing
pub mod Handshake
pub mod Server
pub mod Operator
use t3_spend.Prelude.{ℕ, Option, none, some, List, [], ◌∷◌, true}
use t3_spend.Prelude.Lists.{take}
use t3_spend.Prelude.Texts.{codes}
use t3_spend.Types.{
  CardId, PayTerms, ContractTerms, CardTerms, CardKind, CompiledCard, WireCaveat, WireDelegation,
  SpendMode, ReceiptStatus,
}
use t3_spend.Store.{CardStatus, CardRow, ChargeKind, ChargeRow, UserRow, Store}
use t3_spend.Compiler.{Kit}
use t3_spend.Spend.{SpendRequest}

abbrev caveat : WireCaveat
caveat = record { enforcer = codes "e"; terms = codes "t"; args = codes "0x" }

-- A kit whose caveats are all one, and in which a selector is the start of its signature.
abbrev pub plain_kit : Kit
plain_kit = record {
  signature = λ s. some s;
  selector = λ s. some (take 10 s);
  period_transfer = λ t a n d. caveat;
  transfer_amount = λ t a. caveat;
  allowed_targets = λ ts. caveat;
  allowed_methods = λ ms. caveat;
  timestamp = λ a b. caveat;
  limited_calls = λ n. caveat;
  nonce = λ n. caveat;
  allowed_calldata = λ i t. caveat;
  or_terms = λ gs. codes "0x";
  or_wrapper_args = λ i args. codes "0x";
  pad32 = λ s. s;
  to_hex = λ n. codes "0x";
}

-- Three dollars over the card's life, and two uses.
abbrev pub plain_terms : CardTerms
plain_terms = record {
  pay = some (record { period = none; lifetime = some (codes "3") });
  contract = none;
  expiry = none;
  max_uses = some 2;
  per_tx_max = none;
  merchants = none;
  subcards = some true;
}

abbrev plain_compiled : CompiledCard
plain_compiled = record {
  kind = CardKind.pay;
  root_caveats = [];
  or_groups = none;
  carve_policy = record { per_tx_max_atoms = none; merchants = none };
  period_start_date = none;
  terms = plain_terms;
}

abbrev plain_delegation : WireDelegation
plain_delegation = record {
  delegate = codes "a";
  delegator = codes "b";
  authority = codes "r";
  caveats = [];
  salt = codes "0";
  signature = codes "s";
}

abbrev pub card : CardId → Option CardId → CardRow
card i parent = record {
  id = i;
  user_id = 7;
  parent_card_id = parent;
  name = codes "card";
  secret_hash = i ∷ [];
  secret_enc = none;
  terms = plain_terms;
  kind = CardKind.pay;
  compiled = plain_compiled;
  delegation = plain_delegation;
  k_agent_enc = codes "k";
  k_agent_address = codes "a";
  t3n_did = none;
  t3n_binding = none;
  status = CardStatus.active;
  created_at = i;
}

abbrev user : UserRow
user = record {
  id = 7;
  address = codes "0x01";
  auth7702 = none;
  revocation_nonce = 0;
  privy_did = none;
  created_at = 0;
}

-- Card 1 is a root, card 2 its child, card 3 the child of card 2, and card 4 another root.
abbrev pub tree : List CardRow
tree = card 4 none ∷ card 3 (some 2) ∷ card 2 (some 1) ∷ card 1 none ∷ []

-- A dollar from card 2, with a fee of a cent.
abbrev pub charge : ChargeRow
charge = record {
  id = 1;
  card_id = 2;
  idempotency_key = none;
  kind = ChargeKind.pay;
  to_addr = some (codes "0x02");
  amount_atoms = 1000000;
  fee_atoms = 10000;
  request_id = none;
  tx_hash = none;
  status = ReceiptStatus.pending;
  memo = none;
  created_at = 50;
  since_block = none;
}

abbrev pub before : Store
before = record { users = user ∷ []; cards = tree; charges = [] }

abbrev pub after : Store
after = record before { charges = charge ∷ [] }

abbrev pub request : SpendRequest
request = record {
  kind = ChargeKind.pay;
  mode = SpendMode.pay;
  to = some (codes "0x02");
  amount_atoms = some 1000000;
  work_executions = none;
  memo = none;
  idempotency_key = none;
  settle_charge_id = none;
}
