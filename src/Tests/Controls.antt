-- ===== src/Tests/Controls.antt =====
-- Runs of the theorems on the controls, the scopes, attenuation and amounts.
use t3_spend.Prelude.{List, ◌≡◌, ◌≢◌, ◌||◌, refl, none, some, [], ◌∷◌, true, ◌==◌, ◌↔◌}
use t3_spend.Prelude.Texts.{codes, same_address, has_address, has_text, text_eq}
use t3_spend.Tests.{request, card, tree, before, plain_kit, plain_terms}
use t3_spend.Prelude.Lists.{any, all}
use t3_spend.Spend.Validate.{validate_pay, assert_chain_spendable}
use t3_spend.Spend.Validate.Accepts.{
  is_spendable, assert_chain_spendable_iff, IsPayable, validate_pay_iff,
}
use t3_spend.Prelude.Failures.{ok}
use t3_spend.Types.{CardTerms, ContractTerms}
use t3_spend.Chains.{ChainId, usdc}
use t3_spend.Store.{CardStatus, CardRow}
use t3_spend.Store.Cards.{find_card, get_card, set_card_status}
use t3_spend.Store.Tree.{ancestor_chain, subtree_ids, set_subtree_status}
use t3_spend.Store.Tree.Forest.{IsForest}
use t3_spend.Compiler.{transfer_sig}
use t3_spend.Compiler.Scope.{fee_safe_contract_scope, declared_contract_scope}
use t3_spend.Compiler.Scope.FeeLeg.{fee_safe_contract_scope_lem}
use t3_spend.Compiler.Attenuate.{ParentRemaining, attenuate}
use t3_spend.Compiler.Attenuate.Bounds.{
  ExpiryWithin, MerchantsWithin, PerTxWithin, attenuate-Within,
}
use t3_spend.Ops.{freeze_card, agent_revoke_subcard}
use t3_spend.Ops.Blocking.{freeze_card-blocks, agent_revoke_subcard-blocks}
use t3_spend.Compiler.Validate.{usd_atoms, validate_terms}
use t3_spend.Money.{usdc_text, usdc_to_atoms}
use t3_spend.Money.Amounts.{usdc_to_atoms-usdc_text}

frozen : freeze_card 1 before ≡ ok (set_card_status 1 CardStatus.frozen before)
unfolding freeze_card find_card get_card
frozen = refl

below_root : any (λ (c : CardRow). c.id == 1) (ancestor_chain 3 before) ≡ true
unfolding ancestor_chain find_card
below_root = refl

freeze_card-blocks_example :
    assert_chain_spendable (ancestor_chain 3 (set_card_status 1 CardStatus.frozen before)) 60
    ≢ ok tt
freeze_card-blocks_example = freeze_card-blocks 1 3 before 60 frozen below_root

tree-IsForest : IsForest tree
unfolding find_card
tree-IsForest = (refl, tt, (refl, refl, (refl, refl, (refl, tt, tt))))

revoked : agent_revoke_subcard 1 2 before ≡ ok (set_subtree_status 2 CardStatus.revoked before)
unfolding agent_revoke_subcard subtree_ids
revoked = refl

below_child : any (λ (c : CardRow). c.id == 2) (ancestor_chain 3 before) ≡ true
unfolding ancestor_chain find_card
below_child = refl

agent_revoke_subcard-blocks_example :
    assert_chain_spendable (ancestor_chain 3 (set_subtree_status 2 CardStatus.revoked before)) 60
    ≢ ok tt
agent_revoke_subcard-blocks_example =
    agent_revoke_subcard-blocks 1 2 3 before 60 tree-IsForest revoked below_child

abbrev scope : ContractTerms
scope = record {
  targets = codes "0x0a" ∷ [];
  selectors = codes "swap(uint256)" ∷ [];
  tokens = none;
  per_trade_max = none;
}

fee_safe_contract_scope_lem_example :
    (has_address (fee_safe_contract_scope scope ChainId.base).targets (codes "0x0A") ≡ (
      has_address (declared_contract_scope scope).targets (codes "0x0A")
      || same_address (usdc ChainId.base) (codes "0x0A")))
    × (has_text (fee_safe_contract_scope scope ChainId.base).selectors transfer_sig ≡ (
        has_text (declared_contract_scope scope).selectors transfer_sig
        || text_eq transfer_sig transfer_sig))
fee_safe_contract_scope_lem_example =
    fee_safe_contract_scope_lem scope ChainId.base (codes "0x0A") transfer_sig

abbrev parent : CardTerms
parent = record plain_terms { expiry = some 900; per_tx_max = some (codes "2") }

abbrev child : CardTerms
child = record plain_terms { per_tx_max = some (codes "1.5") }

abbrev remaining : ParentRemaining
remaining = record { period_remaining_atoms = none; lifetime_remaining_atoms = some 3000000 }

attenuated :
    attenuate plain_kit parent remaining child 100 ≡ ok (record child { expiry = some 900 })
unfolding attenuate usdc_to_atoms usd_atoms validate_terms
attenuated = refl

attenuate-Within_example :
    ExpiryWithin parent.expiry (some 900)
    × MerchantsWithin parent.merchants none
    × PerTxWithin parent.per_tx_max (some (codes "1.5"))
attenuate-Within_example = attenuate-Within plain_kit parent child remaining 100 attenuated

abbrev chain : List CardRow
chain = card 2 (some 1) ∷ card 1 none ∷ []

assert_chain_spendable_iff_example :
    (assert_chain_spendable chain 60 ≡ ok tt) ↔ (all (is_spendable 60) chain ≡ true)
assert_chain_spendable_iff_example = assert_chain_spendable_iff chain 60

validate_pay_iff_example : (validate_pay chain request ≡ ok tt) ↔ IsPayable chain request
validate_pay_iff_example = validate_pay_iff chain request

usdc_to_atoms-usdc_text_example : usdc_to_atoms (usdc_text 12340000) ≡ ok 12340000
usdc_to_atoms-usdc_text_example = usdc_to_atoms-usdc_text 12340000
