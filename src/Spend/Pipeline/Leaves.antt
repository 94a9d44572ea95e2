-- ===== src/Spend/Pipeline/Leaves.antt =====
-- The transactions of `spend` in packages/engine/src/spend.ts: what is fixed for a run, the delegations
-- of its chain, and the leaf that is carved for each item.
use t3_spend.Prelude.{ℕ, ◌+◌, Option, none, some, List, [], ◌∷◌, or_else}
use t3_spend.Prelude.Failures.{
  Failure, refusal, engine, bare, settle, estimate, send, spend as spending, card_not_found, Result,
  ok, err, or_throw, throw_if,
}
use t3_spend.Prelude.Failures
use t3_spend.Types.{WireDelegation, WireExecution, WireCaveat, SpendMode}
use t3_spend.Chains.{ChainId}
use t3_spend.Store.{StoredAuth, CardRow, ChargeRow}
use t3_spend.Compiler.{Kit}
use t3_spend.Compiler.Scope.{LeafScope, pay_leaf_scope, contract_leaf_scope}
use t3_spend.Compiler.Allowance.{allowance_leaf_scope, allowance_pin_caveats}
use t3_spend.Compiler.Compile.{apply_or_args}
use t3_spend.Spend.{SpendRequest}
use t3_spend.Spend.Plan.{Item}
use t3_spend.Spend.Network.{Transaction, Network}

-- What is fixed once a run has begun.
pub record Run : Type 0 where
  pub net : Network
  pub kit : Kit
  pub chain_id : ChainId
  pub now : ℕ
  pub card : CardRow
  pub chain : List CardRow
  pub delegations : List WireDelegation
  pub work : List WireExecution
  pub auth : Option StoredAuth
  pub settle_row : Option ChargeRow
  pub req : SpendRequest

-- `delegationForMode`
unfoldable pub delegation_for_mode : Kit → SpendMode → CardRow → Result WireDelegation
unfolding apply_or_args
delegation_for_mode kit mode c = elim c.compiled.or_groups [
  | none ↦ ok c.delegation
  | some _ ↦
      Failures.◌>>=◌ (apply_or_args kit c.compiled mode)
        (λ caveats. ok (record c.delegation { caveats = caveats }))
]

unfoldable pub delegations_for_mode : Kit → SpendMode → List CardRow → Result (List WireDelegation)
unfolding delegation_for_mode
delegations_for_mode kit mode [] = ok []
delegations_for_mode kit mode (c ∷ cs) =
    Failures.◌>>=◌ (delegation_for_mode kit mode c)
      (λ d. Failures.◌>>=◌ (delegations_for_mode kit mode cs) (λ ds. ok (d ∷ ds)))

abbrev pub amount_of : SpendRequest → ℕ
amount_of req = or_else req.amount_atoms 0

unfoldable pub leaf_scope : Run → ℕ → Item → Result LeafScope
leaf_scope run fee item = elim run.req.mode [
  | SpendMode.pay ↦ ok (pay_leaf_scope (amount_of run.req + fee) run.chain_id)
  | SpendMode.contract ↦ elim item.pin [
    | some pin ↦ ok (allowance_leaf_scope pin)
    | none ↦ elim run.card.terms.contract [
      | none ↦ err bare
      | some terms ↦ ok (contract_leaf_scope terms run.chain_id)
    ]
  ]
]

abbrev pins_of : Run → Item → Option (List WireCaveat)
pins_of run i = elim i.pin [ none ↦ none | some pin ↦ some (allowance_pin_caveats run.kit pin) ]

-- The leaf is carved from the spending card's own delegation.
unfoldable pub sign_item : Run → Item → LeafScope → List WireDelegation → Result WireDelegation
sign_item run item scope [] = err bare
sign_item run item scope (parent ∷ _) =
    run.net.sign_leaf run.card.k_agent_enc parent run.card.k_agent_address scope (pins_of run item)

unfoldable pub sign_items : Run → ℕ → List Item → Result (List Transaction)
unfolding leaf_scope sign_item
sign_items run fee [] = ok []
sign_items run fee (i ∷ is) = Failures.◌>>=◌ (leaf_scope run fee i) (λ scope.
    Failures.◌>>=◌ (sign_item run i scope run.delegations) (λ leaf.
      Failures.◌>>=◌ (sign_items run fee is) (λ rest. ok (
        record { permission_context = leaf ∷ run.delegations; executions = i.executions } ∷ rest))))
