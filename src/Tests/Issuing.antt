-- ===== src/Tests/Issuing.antt =====
-- Runs of the theorems on the issue of cards and the custody of secrets.
use t3_spend.Prelude.{true, ℕ, ◌≡◌, refl, none, some, [], ◌∷◌, ◌++◌, arith}
use t3_spend.Prelude.Lists.{take, drop, replicate, length-append, length-replicate}
use t3_spend.Prelude.Texts.{Text, codes, text_eq}
use t3_spend.Prelude.Failures.{ok, err, refusal, invalid_terms}
use t3_spend.Chains.{ChainId}
use t3_spend.Custody.{
  Bytes, Vault, encrypt_secret, decrypt_secret, generate_agent_key, generate_card_secret,
  hash_card_secret,
}
use t3_spend.Custody.RoundTrip.{IsSealing, decrypt_secret-encrypt_secret}
use t3_spend.Delegations.{
  DelegationKit, unsigned, sign_with_smart_account, verify_root_delegation_signature,
}
use t3_spend.Store.{Store}
use t3_spend.Store.Cards.{create_card}
use t3_spend.Money.{usdc_to_atoms}
use t3_spend.Compiler.Compile.{compile_card}
use t3_spend.Types.{CardTerms, ContractTerms}
use t3_spend.Issuance.{Issuer, IssuedCard, RootArgs, SubArgs, draft_row}
use t3_spend.Issuance.Root.{
  signer_nonce, known_nonce, signed_root, root_draft, store_card, issue_root_card,
  prepare_root_card, finalize_root_card, PreparedRootCard,
}
use t3_spend.Issuance.Calls.{finalizes_root, make_call}
use t3_spend.Issuance.Atomic.{make_call-KeepsOnErr}
use t3_spend.Issuance.Lanes.{finalize_root_card-prepare_root_card}
use t3_spend.Tests.{card, before, plain_kit, plain_terms}

abbrev zeros : Text
zeros = replicate 16 0

-- The tag is sixteen zeros, and the rest is in clear.
abbrev pub plain_vault : Vault
plain_vault = record {
  master_key_text = some (replicate 64 48);
  utf8 = λ t. t;
  from_utf8 = λ b. b;
  seal = λ key iv p. zeros ++ p;
  open_sealed = λ key iv c. some (drop 16 c);
  address_of = λ pk. ok (take 4 pk);
  base64url = λ b. b;
  sha256_hex = λ s. 104 ∷ s;
}

plain_vault-IsSealing : IsSealing plain_vault
plain_vault-IsSealing = record {
  opens = λ key iv p. refl;
  tagged = λ key iv p. omega (arith, length-append zeros p, length-replicate {A = ℕ} 16 0);
}

abbrev iv : Bytes
iv = replicate 12 7

encrypted_key : encrypt_secret plain_vault iv (codes "0xkey") ≡ ok (iv ++ zeros ++ codes "0xkey")
unfolding encrypt_secret
encrypted_key = refl

decrypt_secret-encrypt_secret_example :
    decrypt_secret plain_vault (iv ++ zeros ++ codes "0xkey") ≡ ok (codes "0xkey")
decrypt_secret-encrypt_secret_example =
    decrypt_secret-encrypt_secret plain_vault plain_vault-IsSealing iv refl (codes "0xkey") refl
      encrypted_key

-- A signature is the address of its signer.
abbrev plain_delegations : DelegationKit
plain_delegations = record {
  root_authority = codes "root";
  hash_delegation = λ d. d.salt;
  sign_account = λ account d chain. ok account;
  sign_key = λ pk d manager chain. ok (take 4 pk);
  recover = λ domain d signature. ok signature;
  is_address_equal = λ a b. ok (text_eq a b);
  delegator_impl = λ chain. none;
  transaction_count = λ a chain. ok 0;
  code_of = λ a chain. ok none;
  sign_authorization = λ a impl chain nonce. ok (none, codes "r", codes "s");
  to_hex = λ n. codes "0x";
  chain_hex = λ chain. codes "0x";
  encode_transfer = λ to n. ok to;
  encode_approve = λ to n. ok to;
}

abbrev issuer : Issuer
issuer = record {
  kit = plain_kit;
  vault = plain_vault;
  delegations = plain_delegations;
  chain_id = ChainId.base;
  now = 1000;
  revocation_nonce_override = some 0;
  current_nonce = λ chain manager user. ok 0;
  agent_pk = codes "pk02";
  agent_iv = iv;
  secret_iv = iv;
  salt_bytes = 1 ∷ [];
  secret_bytes = codes "new";
  fresh_card = 9;
  fresh_prepare = 1;
  clock = 1000;
  binding_text = λ b. b.agent_did;
  between = λ at s. s;
}

-- Card 1 as it is, with a key that the vault can open.
abbrev keyed : Store
keyed = record before {
  cards = record (card 1 none) { k_agent_enc = iv ++ zeros ++ codes "pk01" } ∷ [];
}

abbrev shop : Text
shop = codes "0x00000000000000000000000000000000000000aa"

abbrev swaps : ContractTerms
swaps = record {
  targets = shop ∷ [];
  selectors = codes "swap(uint256)" ∷ [];
  tokens = none;
  per_trade_max = some (codes "1");
}

-- Every term that binds a sub-card.
abbrev bound_terms : CardTerms
bound_terms = record {
  pay = some (record { period = none; lifetime = some (codes "3") });
  contract = some swaps;
  expiry = some 2000;
  max_uses = some 2;
  per_tx_max = some (codes "2");
  merchants = some (shop ∷ []);
  subcards = some true;
}

abbrev bound_store : Store
bound_store = record before {
  cards =
      record (card 1 none) { k_agent_enc = iv ++ zeros ++ codes "pk01"; terms = bound_terms } ∷ [];
}

-- Less of each, where it is given; the rest is inherited.
abbrev asked_terms : CardTerms
asked_terms = record {
  pay = some (record { period = none; lifetime = some (codes "2") });
  contract = some (record swaps { per_trade_max = some (codes "0.5") });
  expiry = none;
  max_uses = some 1;
  per_tx_max = some (codes "1.5");
  merchants = none;
  subcards = none;
}

abbrev sub_args : SubArgs
sub_args = record { parent_card_id = 1; name = codes "sub"; terms = asked_terms }

abbrev minted_card : IssuedCard
minted_card = record {
  card_id = 9;
  secret = codes "new";
  k_agent_address = codes "pk02";
  terms = record asked_terms { expiry = some 2000; merchants = some (shop ∷ []) };
}

abbrev sub_card : IssuedCard
sub_card = record {
  card_id = 9;
  secret = codes "new";
  k_agent_address = codes "pk02";
  terms = plain_terms;
}

abbrev root_args : RootArgs
root_args = record { user_id = 7; name = codes "root"; terms = plain_terms }

issued_root :
    issue_root_card issuer (codes "0x01") root_args before
    ≡ (ok sub_card, (issue_root_card issuer (codes "0x01") root_args before).1)
unfolding issue_root_card signed_root compile_card usdc_to_atoms generate_agent_key
    sign_with_smart_account verify_root_delegation_signature store_card create_card draft_row
    root_draft hash_card_secret generate_card_secret
issued_root = refl

finalize_root_card-prepare_root_card_example :
    (p : PreparedRootCard) × (signature : Text) × (prepare_root_card issuer
        (codes "0x01")
        root_args
        before
      ≡ (ok p, before))
    × (plain_delegations.sign_account (codes "0x01") p.delegation ChainId.base ≡ ok signature)
    × (finalize_root_card issuer p signature before
        ≡ (ok sub_card, (issue_root_card issuer (codes "0x01") root_args before).1))
unfolding signer_nonce known_nonce
finalize_root_card-prepare_root_card_example =
    finalize_root_card-prepare_root_card issuer (λ at s. refl) (codes "0x01") root_args before 0
      refl refl issued_root

abbrev unsigned_card : PreparedRootCard
unsigned_card = record {
  prepare_id = 1;
  user_id = 7;
  card_id = 9;
  name = codes "root";
  secret = codes "new";
  key = record { address = codes "pk02"; encrypted_pk = [] };
  compiled = (card 1 none).compiled;
  delegation = (card 1 none).delegation;
  chain_id = ChainId.base;
  created_at = 1000;
}

refused_root :
    make_call issuer (finalizes_root unsigned_card (codes "0x")) keyed
    ≡ (err (refusal invalid_terms), keyed)
unfolding make_call finalize_root_card unsigned
refused_root = refl

make_call-KeepsOnErr_example : keyed ≡ keyed
make_call-KeepsOnErr_example =
    make_call-KeepsOnErr (λ s. s ≡ keyed) issuer (λ at s e. e)
      (finalizes_root unsigned_card (codes "0x")) keyed keyed (refusal invalid_terms) refl
      refused_root
