-- ===== src/Compiler/Attenuate/Terms.antt =====
-- All terms of a sub-card against its parent's, in `attenuate` of packages/engine/src/compiler.ts.
use t3_spend.Prelude.{ℕ, ◌≡◌}
use t3_spend.Prelude.Failures.{ok}
use t3_spend.Types.{CardTerms}
use t3_spend.Compiler.{Kit}
use t3_spend.Compiler.Attenuate.{ParentRemaining, attenuate}
use t3_spend.Compiler.Attenuate.Bounds.{
  ExpiryWithin, MerchantsWithin, PerTxWithin, attenuate-Within, attenuate-Attenuated,
}
use t3_spend.Compiler.Attenuate.Budgets.{
  PayWithin, UsesWithin, attenuate_pay-Within, check_child_uses-Within,
}
use t3_spend.Compiler.Attenuate.Scopes.{ScopeWithin, attenuate_contract-Within}

-- Terms that a parent with the budgets that remain can grant.
pub record TermsWithin (kit : Kit) (parent : CardTerms) (remaining : ParentRemaining)
    (child : CardTerms) : Type 0 where
  pub pay : PayWithin parent.pay remaining child.pay
  pub contract : ScopeWithin kit parent.contract child.contract
  pub expiry : ExpiryWithin parent.expiry child.expiry
  pub merchants : MerchantsWithin parent.merchants child.merchants
  pub per_tx_max : PerTxWithin parent.per_tx_max child.per_tx_max
  pub uses : UsesWithin parent.max_uses child.max_uses

pub attenuate-TermsWithin :
    (kit : Kit) (parent child : CardTerms) (remaining : ParentRemaining) (now : ℕ) {out : CardTerms}
    → attenuate kit parent remaining child now ≡ ok out
    → TermsWithin kit parent remaining out
attenuate-TermsWithin kit parent child remaining now {out} h =
    let a = attenuate-Attenuated kit parent child remaining now {out = out} h in
    let (expiry, merchants, per_tx_max) =
      attenuate-Within kit parent child remaining now {out = out} h in
    record {
      pay = attenuate_pay-Within parent.pay remaining child.pay {out = out.pay} a.pay;
      contract =
          attenuate_contract-Within kit parent.contract child.contract {capped = a.capped}
            {out = out.contract} a.contract a.normal;
      expiry = expiry;
      merchants = merchants;
      per_tx_max = per_tx_max;
      uses = check_child_uses-Within parent.max_uses out.max_uses a.uses;
    }
