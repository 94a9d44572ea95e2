-- ===== src/Compiler/Compile.antt =====
-- `compileCard` of packages/engine/src/compiler.ts: terms to root caveats and carve policy.
use t3_spend.Prelude.{
  ℕ, suc, ◌-◌, ◌*◌, Bool, false, Option, none, some, List, [], ◌∷◌, ◌++◌, map, ◌==◌, if◌then◌else◌,
  is_some,
}
use t3_spend.Prelude.Lists.{length, replicate, get_elem?}
use t3_spend.Prelude.Texts.{Text, codes}
use t3_spend.Prelude.Failures.{Result, ok, err, refusal, invalid_terms, ◌>>=◌}
use t3_spend.Types.{
  PeriodCap, PayTerms, ContractTerms, CardTerms, WireCaveat, CardKind, OrGroupInfo, CompiledCard,
  SpendMode,
}
use t3_spend.Chains.{ChainId, usdc, logical_or_wrapper}
use t3_spend.Money.{usdc_to_atoms}
use t3_spend.Compiler.{Kit, start_date_backdate_s, max_executions_per_redemption}
use t3_spend.Compiler.Scope.{fee_safe_contract_scope}
use t3_spend.Compiler.Validate.{validate_terms}

pub record CompileOpts : Type 0 where
  pub chain : ChainId
  pub revocation_nonce : ℕ
  pub now : ℕ

module _ (kit : Kit) where
  unfoldable pub period_caveats : Option PeriodCap → CompileOpts → Result (List WireCaveat)
  period_caveats none opts = ok []
  period_caveats (some p) opts = do
    amount ← usdc_to_atoms p.amount
    ok (
        kit.period_transfer (usdc opts.chain) amount p.seconds (opts.now - start_date_backdate_s)
        ∷ [])

  unfoldable pub lifetime_caveats : Option Text → CompileOpts → Result (List WireCaveat)
  lifetime_caveats none opts = ok []
  lifetime_caveats (some cap) opts = do
    amount ← usdc_to_atoms cap
    ok (kit.transfer_amount (usdc opts.chain) amount ∷ [])

  unfoldable pub pay_caveats : PayTerms → CompileOpts → Result (List WireCaveat)
  unfolding period_caveats lifetime_caveats
  pay_caveats terms opts = do
    period ← period_caveats terms.period opts
    lifetime ← lifetime_caveats terms.lifetime opts
    ok (period ++ lifetime)

  unfoldable pub contract_caveats : ContractTerms → ChainId → List WireCaveat
  unfolding fee_safe_contract_scope
  contract_caveats terms chain =
      let scope = fee_safe_contract_scope terms chain in
      kit.allowed_targets scope.targets ∷ kit.allowed_methods scope.selectors ∷ []

  -- The limit is in executions, `maxUses` in redemptions.
  unfoldable pub execution_limit : CardTerms → ℕ → ℕ
  execution_limit terms uses =
      uses * (if is_some terms.contract then max_executions_per_redemption else 2)

  unfoldable pub base_caveats : CardTerms → CompileOpts → List WireCaveat
  unfolding execution_limit
  base_caveats terms opts =
      elim terms.expiry [ none ↦ [] | some t ↦ kit.timestamp 0 t ∷ [] ]
      ++ (elim terms.max_uses [
        | none ↦ []
        | some n ↦ kit.limited_calls (execution_limit terms n) ∷ []
      ]
          ++ kit.nonce opts.revocation_nonce ∷ [])

  -- `orArgs`
  unfoldable pub or_args : ℕ → ℕ → Text
  or_args index size = kit.or_wrapper_args index (replicate size (codes "0x00"))

  abbrev to_group : List WireCaveat → List WireCaveat
  to_group = map (λ (c : WireCaveat). record c { args = codes "0x00" })

  -- The placeholder arguments select the pay group.
  unfoldable pub or_wrapper_caveat : List WireCaveat → List WireCaveat → WireCaveat
  unfolding or_args
  or_wrapper_caveat pay_group contract_group = record {
    enforcer = logical_or_wrapper;
    terms = kit.or_terms (to_group pay_group ∷ to_group contract_group ∷ []);
    args = or_args 0 (length pay_group);
  }

  abbrev set_args : ℕ → Text → ℕ → List WireCaveat → List WireCaveat
  set_args position args i [] = []
  set_args position args i (c ∷ cs) =
      (if i == position then record c { args = args } else c) ∷ set_args position args (suc i) cs

  abbrev index_for : OrGroupInfo → SpendMode → ℕ
  index_for g SpendMode.pay = g.pay_index
  index_for g SpendMode.contract = g.contract_index

  -- `applyOrArgs`: the wrapper's arguments for this redemption's mode.
  unfoldable pub apply_or_args : CompiledCard → SpendMode → Result (List WireCaveat)
  unfolding or_args
  apply_or_args compiled mode = elim compiled.or_groups [
    | none ↦ ok compiled.root_caveats
    | some g ↦ elim (get_elem? g.sizes (index_for g mode)) [
      | none ↦ err (refusal invalid_terms)
      | some size ↦
          ok (set_args g.caveat_position (or_args (index_for g mode) size) 0 compiled.root_caveats)
    ]
  ]

  abbrev has_period : Option PayTerms → Bool
  has_period none = false
  has_period (some pay) = is_some pay.period

  abbrev optional_atoms : Option Text → Result (Option ℕ)
  optional_atoms none = ok none
  optional_atoms (some t) = do n ← usdc_to_atoms t; ok (some n)

  -- The root caveats and the OR groups, by the capabilities that the terms have.
  unfoldable pub group_caveats :
      Option PayTerms
      → Option ContractTerms
      → CompileOpts
      → Result (CardKind × List WireCaveat × Option OrGroupInfo)
  unfolding pay_caveats contract_caveats or_wrapper_caveat
  group_caveats (some pay) (some contract) opts = do
    pay_group ← pay_caveats pay opts
    let contract_group = contract_caveats contract opts.chain
    ok (
      CardKind.composite,
      or_wrapper_caveat pay_group contract_group ∷ [],
      some (record {
        pay_index = 0;
        contract_index = 1;
        sizes = length pay_group ∷ length contract_group ∷ [];
        caveat_position = 0;
      }),
    )
  group_caveats (some pay) none opts = do
    pay_group ← pay_caveats pay opts
    ok (CardKind.pay, pay_group, none)
  group_caveats none (some contract) opts =
      ok (CardKind.contract, contract_caveats contract opts.chain, none)
  group_caveats none none opts = err (refusal invalid_terms)

  unfoldable pub compile_card : CardTerms → CompileOpts → Result CompiledCard
  unfolding validate_terms base_caveats group_caveats
  compile_card given opts = do
    terms ← validate_terms kit given opts.now
    per_tx_max_atoms ← optional_atoms terms.per_tx_max
    (kind, caveats, groups) ← group_caveats terms.pay terms.contract opts
    ok (record {
      kind = kind;
      root_caveats = caveats ++ base_caveats terms opts;
      or_groups = groups;
      carve_policy = record { per_tx_max_atoms = per_tx_max_atoms; merchants = terms.merchants };
      period_start_date =
          if has_period terms.pay then some (opts.now - start_date_backdate_s) else none;
      terms = terms;
    })
