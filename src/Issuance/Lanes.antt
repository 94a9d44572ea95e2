-- ===== src/Issuance/Lanes.antt =====
-- The two ways of packages/engine/src/issuance.ts to a root card: signed by the server at once, and
-- prepared, signed in the browser and finished.
use t3_spend.Prelude.{arith, ℕ, ◌≡◌, refl, sym, ap, ◌∙◌, true, false, none, inl, inr}
use t3_spend.Prelude.Texts.{Text}
use t3_spend.Prelude.Failures.{ok, Result-cases}
use t3_spend.Prelude.Exec.Rules.{>>=-eq-pair}
use t3_spend.Types.{CompiledCard, WireDelegation}
use t3_spend.Custody.{AgentKey, generate_agent_key, generate_card_secret}
use t3_spend.Delegations.{
  unsigned, build_root_delegation, sign_with_smart_account, verify_root_delegation_signature,
}
use t3_spend.Compiler.Compile.{compile_card}
use t3_spend.Store.{Store}
use t3_spend.Store.Users.{get_user}
use t3_spend.Issuance.{Issuer, IssueAwait, IssuedCard, RootArgs, opts_of, Draft}
use t3_spend.Issuance.Root.{
  signer_nonce, known_nonce, root_delegation, root_draft, signed_root, store_card, issue_root_card,
  PreparedRootCard, prepare_root_card, prepared_draft, finalize_root_card,
}

verify-unsigned :
    (i : Issuer) (d : WireDelegation) (user : Text)
    → verify_root_delegation_signature i.delegations d user i.chain_id ≡ true
    → unsigned d.signature ≡ false
unfolding verify_root_delegation_signature
verify-unsigned i d user h = ground arith

module _ (i : Issuer) (quiet : (at : IssueAwait) (s : Store) → i.between at s ≡ s) (user : Text)
    (args : RootArgs) (s : Store) where
  abbrev prepared_card : AgentKey → CompiledCard → PreparedRootCard
  prepared_card agent compiled = record {
    prepare_id = i.fresh_prepare;
    user_id = args.user_id;
    card_id = i.fresh_card;
    name = args.name;
    secret = generate_card_secret i.vault i.secret_bytes;
    key = agent;
    compiled = compiled;
    delegation = root_delegation i user agent.address compiled;
    chain_id = i.chain_id;
    created_at = i.now;
  }

  signer_nonce-state : (signer_nonce i user s).1 ≡ s
  unfolding signer_nonce
  signer_nonce-state = grind (arith, quiet)

  prepare_root_card-prepared :
      {n : ℕ} {compiled : CompiledCard} {agent : AgentKey}
      → known_nonce i user (get_user args.user_id s) s ≡ (ok n, s)
      → compile_card i.kit args.terms (opts_of i n) ≡ ok compiled
      → generate_agent_key i.vault i.agent_pk i.agent_iv ≡ ok agent
      → prepare_root_card i user args s ≡ (ok (prepared_card agent compiled), s)
  unfolding prepare_root_card
  prepare_root_card-prepared a b c = grind (arith, a, b, c, quiet)

  -- The signature that the wallet's signer puts on the prepared delegation.
  abbrev SignsWith : AgentKey → CompiledCard → Text → Type 0
  SignsWith agent compiled signature =
      (i.delegations.sign_account user (root_delegation i user agent.address compiled) i.chain_id
        ≡ ok signature)
      × (verify_root_delegation_signature i.delegations
            (record (root_delegation i user agent.address compiled) { signature = signature }) user
            i.chain_id
          ≡ true)

  signed_root-inv :
      {n : ℕ} {d : Draft} {t : Store}
      → signer_nonce i user s ≡ (ok n, s)
      → signed_root i user args s ≡ (ok d, t)
      → (compiled : CompiledCard) × (agent : AgentKey) × (signature : Text) × (compile_card i.kit
            args.terms
            (opts_of i n)
          ≡ ok compiled)
        × (generate_agent_key i.vault i.agent_pk i.agent_iv ≡ ok agent)
        × SignsWith agent compiled signature
        × (d
            ≡ root_draft i args compiled
                (record (root_delegation i user agent.address compiled) { signature = signature })
                agent)
        × (t ≡ s)
  unfolding signed_root sign_with_smart_account
  signed_root-inv {n} {d} {t} same h =
      elim (Result-cases (compile_card i.kit args.terms (opts_of i n))) [
        | inr (e, failed) ↦ absurd (ground (arith, same, failed))
        | inl (compiled, made) ↦
            elim (Result-cases (generate_agent_key i.vault i.agent_pk i.agent_iv)) [
              | inr (e, failed) ↦ absurd (ground (arith, same, made, failed))
              | inl (agent, minted) ↦
                  elim (Result-cases (
                    i.delegations.sign_account user (root_delegation i user agent.address compiled)
                      i.chain_id)) [
                        | inr (e, failed) ↦ absurd (ground (arith, same, made, minted, failed))
                        | inl (signature, signs) ↦ (
                          compiled,
                          agent,
                          signature,
                          made,
                          minted,
                          (signs, ground (arith, same, made, minted, signs)),
                          ground (arith, same, made, minted, signs),
                          grind (arith, same, made, minted, signs, quiet),
                        )
                      ]
            ]
      ]

  finalize_root_card-prepared :
      (agent : AgentKey) (compiled : CompiledCard) (signature : Text)
      → SignsWith agent compiled signature
      → finalize_root_card i (prepared_card agent compiled) signature s
        ≡ store_card i
            (root_draft i args compiled
              (record (root_delegation i user agent.address compiled) { signature = signature })
              agent)
            (generate_card_secret i.vault i.secret_bytes)
            none
            none
            s
  unfolding finalize_root_card root_draft prepared_draft root_delegation build_root_delegation
  finalize_root_card-prepared agent compiled signature (signs, recovers) =
      rw (verify-unsigned i _ user recovers, recovers, quiet _ s) refl

  -- If the server's lane issues a card, the browser's lane issues the same card: prepare, then
  -- finalize with the signature of the user's account on the prepared delegation, returns the same and
  -- leaves the same store, where the nonce stored for the user is the one on chain and no other
  -- request writes meanwhile.
  pub finalize_root_card-prepare_root_card :
      (n : ℕ) {card : IssuedCard} {s' : Store}
      → signer_nonce i user s ≡ (ok n, s)
      → known_nonce i user (get_user args.user_id s) s ≡ (ok n, s)
      → issue_root_card i user args s ≡ (ok card, s')
      → (p : PreparedRootCard) × (signature : Text) × (prepare_root_card i user args s ≡ (ok p, s))
        × (i.delegations.sign_account user p.delegation i.chain_id ≡ ok signature)
        × (finalize_root_card i p signature s ≡ (ok card, s'))
  unfolding issue_root_card
  finalize_root_card-prepare_root_card n {card} {s'} live known h =
      let (d, t, made, stored) =
        >>=-eq-pair (signed_root i user args)
          (λ d. store_card i d (generate_card_secret i.vault i.secret_bytes) none none) s {b = card}
          {s' = s'} h in
      let (compiled, agent, signature, compiles, minted, signs, drafted, still) =
        signed_root-inv {n = n} {d = d} {t = t} live made in
      (
        prepared_card agent compiled,
        signature,
        prepare_root_card-prepared known compiles minted,
        signs.0,
        finalize_root_card-prepared agent compiled signature signs
            ∙ ap (λ x. store_card i x (generate_card_secret i.vault i.secret_bytes) none none s)
                (sym drafted)
            ∙ ap (store_card i d (generate_card_secret i.vault i.secret_bytes) none none)
                (sym still)
            ∙ stored,
      )
