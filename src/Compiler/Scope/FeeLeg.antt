-- ===== src/Compiler/Scope/FeeLeg.antt =====
-- What the fee leg adds to a contract scope.
use t3_spend.Prelude.{
  ◌≡◌, refl, ap, true, ◌||◌, List, [], ◌∷◌, ◌++◌, arith, if◌then◌else◌, Bool-cases, inl, inr,
}
use t3_spend.Prelude.Texts.{
  Text, lower, text_eq, text_eq_sound, same_address, has_address, has_text,
}
use t3_spend.Types.{ContractTerms}
use t3_spend.Chains.{ChainId, usdc}
use t3_spend.Compiler.{transfer_sig}
use t3_spend.Compiler.Scope.{fee_safe_contract_scope, declared_contract_scope}

has_address-append :
    (xs : List Text) (x a : Text)
    → has_address (xs ++ x ∷ []) a ≡ (has_address xs a || same_address x a)
unfolding has_address
has_address-append [] x a = ground arith
has_address-append (y ∷ xs) x a = ground (arith, has_address-append xs x a)

has_text-append :
    (xs : List Text) (x a : Text) → has_text (xs ++ x ∷ []) a ≡ (has_text xs a || text_eq x a)
unfolding has_text
has_text-append [] x a = ground arith
has_text-append (y ∷ xs) x a = ground (arith, has_text-append xs x a)

-- Membership sees an address through `toLowerCase` only.
has_address-same :
    (xs : List Text) (a b : Text) → same_address a b ≡ true → has_address xs a ≡ has_address xs b
unfolding has_address same_address
has_address-same [] a b h = refl
has_address-same (x ∷ xs) a b h =
    let e = text_eq_sound (lower a) (lower b) h in
    let rest = has_address-same xs a b h in rw e (rw rest refl)

-- The fee-safe scope allows the declared targets and USDC, the declared methods and `transfer`, and
-- nothing else.
pub fee_safe_contract_scope_lem :
    (terms : ContractTerms) (chain : ChainId) (a m : Text)
    → (has_address (fee_safe_contract_scope terms chain).targets a
        ≡ (has_address (declared_contract_scope terms).targets a || same_address (usdc chain) a))
      × (has_text (fee_safe_contract_scope terms chain).selectors m
          ≡ (has_text (declared_contract_scope terms).selectors m || text_eq transfer_sig m))
unfolding fee_safe_contract_scope declared_contract_scope
fee_safe_contract_scope_lem terms chain a m = (targets, selectors)
  where
    targets :
        has_address
          (if has_address terms.targets (usdc chain)
            then terms.targets
            else terms.targets ++ usdc chain ∷ [])
          a
        ≡ (has_address terms.targets a || same_address (usdc chain) a)
    targets = elim (Bool-cases (has_address terms.targets (usdc chain))) [
      | inl e ↦ rw e (elim (Bool-cases (same_address (usdc chain) a)) [
        | inl same ↦ ground (arith, has_address-same terms.targets (usdc chain) a same, e)
        | inr other ↦ ground arith
      ])
      | inr e ↦ rw e (has_address-append terms.targets (usdc chain) a)
    ]

    selectors :
        has_text
          (if has_text terms.selectors transfer_sig
            then terms.selectors
            else terms.selectors ++ transfer_sig ∷ [])
          m
        ≡ (has_text terms.selectors m || text_eq transfer_sig m)
    selectors = elim (Bool-cases (has_text terms.selectors transfer_sig)) [
      | inl e ↦ rw e (elim (Bool-cases (text_eq transfer_sig m)) [
        | inl same ↦
            ground (arith, ap (has_text terms.selectors) (text_eq_sound transfer_sig m same), e)
        | inr other ↦ ground arith
      ])
      | inr e ↦ rw e (has_text-append terms.selectors transfer_sig m)
    ]
