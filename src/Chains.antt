-- ===== src/Chains.antt =====
-- packages/engine/src/chains.ts: the two chains and their constants. RPC clients are not modelled.
use t3_spend.Prelude.Texts.{Text, codes}

-- 8453 and 84532
pub data ChainId : Type 0 where
  base base_sepolia : ChainId

unfoldable pub usdc : ChainId → Text
usdc ChainId.base = codes "0x833589fCD6eDb6E08f4c7C32D4f71b54bdA02913"
usdc ChainId.base_sepolia = codes "0x036CbD53842c5426634e7929541eC2318f3dCF7e"

-- Every leaf delegation goes to this address.
unfoldable pub target_address : ChainId → Text
target_address ChainId.base = codes "0x26a529124f0bbf9af9d8f9f84a43efe47cf1199a"
target_address ChainId.base_sepolia = codes "0xf1ef956eff4181Ce913b664713515996858B9Ca9"

unfoldable pub fee_collector : Text
fee_collector = codes "0xE936e8FAf4A5655469182A49a505055B71C17604"

unfoldable pub delegation_manager : Text
delegation_manager = codes "0xdb9B1e94B5b69Df7e401DDbedE43491141047dB3"

unfoldable pub logical_or_wrapper : Text
logical_or_wrapper = codes "0xE1302607a3251AF54c3a6e69318d6aa07F5eB46c"
