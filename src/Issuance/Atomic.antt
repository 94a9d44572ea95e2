-- ===== src/Issuance/Atomic.antt =====
-- What the calls of packages/engine/src/issuance.ts leave in the store, returned or thrown.
use t3_spend.Prelude.{arith, ◌≡◌, Option, none, Option-cases, inl, inr}
use t3_spend.Prelude.Texts.{Text}
use t3_spend.Prelude.Failures.{Failure, Result, err}
use t3_spend.Prelude.Exec.{◌>>=◌}
use t3_spend.Prelude.Exec.Rules.{Keeps, KeepsOnErr, >>=-KeepsOnErr}
use t3_spend.Custody.{generate_card_secret}
use t3_spend.Issuance.Calls.{
  IssueCall, issues_root, finalizes_root, issues_sub, issues_for_did, finalizes_sub, rotates,
  make_call, silent-err,
}
use t3_spend.Types.{CardId}
use t3_spend.Store.{Store}
use t3_spend.Issuance.{Issuer, IssueAwait, RootArgs, SubArgs, Agent, Draft}
use t3_spend.Issuance.Root.{
  signer_nonce, signed_root, store_card, issue_root_card, PreparedRootCard, finalize_root_card,
}
use t3_spend.Issuance.Sub.{mint_sub, issue_sub_card}
use t3_spend.Issuance.Did.{
  store_bound, issue_card_for_did, PreparedSubCard, finalize_sub_card_for_did,
}
use t3_spend.Issuance.Secrets.{rotate_card_secret}

module _ {ℓ} (P : Store → Type ℓ) (i : Issuer)
    (others : (at : IssueAwait) (s : Store) → P s → P (i.between at s)) where
  signer_nonce-Keeps : (signer : Text) → Keeps P (signer_nonce i signer)
  unfolding signer_nonce
  signer_nonce-Keeps signer s p = elim (Option-cases i.revocation_nonce_override) [
    | inl e ↦ rw e (others _ s p)
    | inr (n, e) ↦ rw e p
  ]

  pub signed_root-Keeps : (signer : Text) (args : RootArgs) → Keeps P (signed_root i signer args)
  unfolding signed_root
  signed_root-Keeps signer args s p = grind (arith, others, signer_nonce-Keeps signer s p)

  store_card-KeepsOnErr :
      (d : Draft) (secret : Text) (did binding : Option Text)
      → KeepsOnErr P (store_card i d secret did binding)
  unfolding store_card
  store_card-KeepsOnErr d secret did binding s p e s' h = grind (arith, others)

  finalize_root_card-KeepsOnErr :
      (p : PreparedRootCard) (signature : Text) → KeepsOnErr P (finalize_root_card i p signature)
  unfolding finalize_root_card store_card
  finalize_root_card-KeepsOnErr p signature s r e s' h = grind (arith, others)

  issue_sub_card-KeepsOnErr : (args : SubArgs) → KeepsOnErr P (issue_sub_card i args)
  unfolding issue_sub_card mint_sub store_card
  issue_sub_card-KeepsOnErr args s r e s' h = grind (arith, others)

  store_bound-KeepsOnErr :
      (d : Draft) (secret : Text) (agent : Agent) → KeepsOnErr P (store_bound i d secret agent)
  unfolding store_bound store_card
  store_bound-KeepsOnErr d secret agent s p e s' h = grind (arith, others)

  finalize_sub_card_for_did-KeepsOnErr :
      (q : PreparedSubCard) → KeepsOnErr P (finalize_sub_card_for_did i q)
  unfolding finalize_sub_card_for_did store_bound store_card
  finalize_sub_card_for_did-KeepsOnErr q s r e s' h = grind (arith, others)

  rotate_card_secret-KeepsOnErr : (id : CardId) → KeepsOnErr P (rotate_card_secret i id)
  unfolding rotate_card_secret
  rotate_card_secret-KeepsOnErr id s r e s' h = grind (arith, others)

  signed_root-then :
      {A : Type 0} (signer : Text) (args : RootArgs) (k : Draft → Store → Result A × Store)
      → ((d : Draft) → KeepsOnErr P (k d))
      → KeepsOnErr P (signed_root i signer args >>= k)
  signed_root-then signer args k rest =
      >>=-KeepsOnErr P (signed_root i signer args) k (signed_root-Keeps signer args) rest

  -- An issue or a rotation that throws has written nothing: what held of the store before it holds
  -- after it, if the writes of other requests keep it.
  pub make_call-KeepsOnErr :
      (call : IssueCall) (s s' : Store) (e : Failure)
      → P s
      → make_call i call s ≡ (err e, s')
      → P s'
  unfolding make_call issue_root_card issue_card_for_did rotate_card_secret
  make_call-KeepsOnErr (issues_root signer args) s s' e r h =
      signed_root-then signer args _
        (λ d. store_card-KeepsOnErr d (generate_card_secret i.vault i.secret_bytes) none none) s r e
        s' (silent-err _ h)
  make_call-KeepsOnErr (finalizes_root p signature) s s' e r h =
      finalize_root_card-KeepsOnErr p signature s r e s' (silent-err _ h)
  make_call-KeepsOnErr (issues_sub args) s s' e r h =
      issue_sub_card-KeepsOnErr args s r e s' (silent-err _ h)
  make_call-KeepsOnErr (issues_for_did signer args agent) s s' e r h =
      signed_root-then signer args _
        (λ d. store_bound-KeepsOnErr d (generate_card_secret i.vault i.secret_bytes) agent) s r e s'
        (silent-err _ h)
  make_call-KeepsOnErr (finalizes_sub q) s s' e r h =
      finalize_sub_card_for_did-KeepsOnErr q s r e s' (silent-err _ h)
  make_call-KeepsOnErr (rotates id) s s' e r h =
      rotate_card_secret-KeepsOnErr id s r e s' (silent-err (rotate_card_secret i id s) h)
