-- ===== src/Compiler/Attenuate/Scopes.antt =====
-- The contract scope of a sub-card against its parent's, in `attenuate` of packages/engine/src/compiler.ts.
-- The child's contract is normalized twice, before the checks and with the terms at the end.
use mathlib.Core.Path.{subst}
use t3_spend.Prelude.{
  ◌≡◌, ◌⊎◌, refl, sym, ap, ◌∙◌, Bool, true, not, ◌&&◌, ◌||◌, Option, none, some, Option-cases, List,
  [], ◌∷◌, ◌++◌, map, arith, if◌then◌else◌, Bool-cases, inl, inr,
}
use t3_spend.Prelude.Lists.{all}
use t3_spend.Prelude.Texts.{Text, text_eq, text_eq_refl, has_address, has_text}
use t3_spend.Prelude.Failures.{
  ok, >>=-eq-ok, throw_if, throw_if-eq-ok, after_guard, ok_inj, Result-cases,
}
use t3_spend.Types.{ContractTerms}
use t3_spend.Money.{usdc_to_atoms}
use t3_spend.Compiler.{Kit, approve_sig}
use t3_spend.Compiler.Validate.{
  add_targets, canonical_selector, union_tokens, normalize_contract, check_contract,
  positive_if_given, is_empty, is_address, is_method, invalid,
}
use t3_spend.Compiler.Attenuate.{
  exceeds, addresses_within, check_child_tokens, attenuate_per_trade_max, attenuate_contract,
}
use t3_spend.Compiler.Attenuate.Budgets.{AmountWithinText}
use t3_spend.Compiler.Attenuate.Addresses.{
  all-snoc, all-add_targets, addresses_within-add_targets, addresses_within_trans, all-map,
  all-weaken, all-has_text,
}

-- A selector that the parent's scope has, or `approve` where the parent's scope has it.
abbrev pub is_scoped : Kit → List Text → Text → Bool
is_scoped kit selectors s =
    has_text (map (canonical_selector kit) selectors) s
    || (text_eq s approve_sig
        && has_text (map (canonical_selector kit) selectors) (canonical_selector kit approve_sig))

abbrev pub TokensWithin : Option (List Text) → Option (List Text) → Type 0
TokensWithin none child = Unit
TokensWithin (some p) none = Unit
TokensWithin (some p) (some c) = addresses_within c p ≡ true

-- The parent's cap per trade, or one that is at most the parent's.
abbrev pub PerTradeWithin : Option Text → Option Text → Type 0
PerTradeWithin none child = Unit
PerTradeWithin (some p) none = Unit
PerTradeWithin (some p) (some c) = (c ≡ p) ⊎ AmountWithinText c p

-- Only a card with a contract scope has sub-cards with one; their targets, selectors and tokens are the
-- parent's, and a cap per trade is no higher.
abbrev pub ScopeWithin : Kit → Option ContractTerms → Option ContractTerms → Type 0
ScopeWithin kit none child = child ≡ none
ScopeWithin kit (some p) none = Unit
ScopeWithin kit (some p) (some c) =
    (addresses_within c.targets p.targets ≡ true)
    × (all (is_scoped kit p.selectors) c.selectors ≡ true)
    × TokensWithin p.tokens c.tokens
    × PerTradeWithin p.per_trade_max c.per_trade_max

-- What the union with the tokens leaves of the targets and the selectors.
abbrev joined_targets : Option (List Text) → List Text → List Text
joined_targets o xs = elim o [ none ↦ xs | some ts ↦ add_targets xs ts ]

abbrev joined_selectors : Option (List Text) → List Text → List Text
joined_selectors o xs = elim o [
  | none ↦ xs
  | some ts ↦ if has_text xs approve_sig then xs else xs ++ approve_sig ∷ []
]

abbrev normal : Kit → ContractTerms → ContractTerms
normal kit ct = record ct {
  targets = joined_targets ct.tokens ct.targets;
  selectors = joined_selectors ct.tokens (map (canonical_selector kit) ct.selectors);
}

union_tokens-joined :
    (kit : Kit) (o : Option (List Text)) (ct : ContractTerms) {out : ContractTerms}
    → union_tokens kit o ct ≡ ok out
    → record ct {
      targets = joined_targets o ct.targets;
      selectors = joined_selectors o ct.selectors;
    }
      ≡ out
unfolding union_tokens
union_tokens-joined kit none ct h = ok_inj h
union_tokens-joined kit (some ts) ct h =
    ok_inj (after_guard (not (all is_address ts)) invalid (after_guard (is_empty ts) invalid h))

normalize_contract-normal :
    (kit : Kit) (ct : ContractTerms) {out : ContractTerms}
    → normalize_contract kit ct ≡ ok out
    → normal kit ct ≡ out
unfolding normalize_contract
normalize_contract-normal kit ct {out} h =
    let h1 = after_guard (is_empty ct.targets) invalid h in
    let h2 = after_guard (is_empty ct.selectors) invalid h1 in
    let h3 = after_guard (not (all is_address ct.targets)) invalid h2 in
    let h4 = after_guard (not (all (is_method kit) ct.selectors)) invalid h3 in
    let (ct', joined, h5) =
      >>=-eq-ok
        (union_tokens kit ct.tokens
          (record ct { selectors = map (canonical_selector kit) ct.selectors }))
        _ h4 in
    let (_, _, same) = >>=-eq-ok (positive_if_given ct.per_trade_max) (λ _. ok ct') h5 in
    union_tokens-joined kit ct.tokens
      (record ct { selectors = map (canonical_selector kit) ct.selectors }) {out = ct'} joined
    ∙ ok_inj same

joined_targets-within :
    (o : Option (List Text)) (xs parent : List Text)
    → addresses_within (joined_targets o xs) parent ≡ true
    → addresses_within (joined_targets o (joined_targets o xs)) parent ≡ true
unfolding addresses_within
joined_targets-within none xs parent h = h
joined_targets-within (some ts) xs parent h =
    all-add_targets (has_address parent) (add_targets xs ts) ts h
      (addresses_within_trans ts (add_targets xs ts) parent h (addresses_within-add_targets xs ts))

has_text-snoc : (xs : List Text) (t : Text) → has_text (xs ++ t ∷ []) t ≡ true
unfolding has_text
has_text-snoc [] t = rw (text_eq_refl t) refl
has_text-snoc (x ∷ xs) t = ground (arith, has_text-snoc xs t)

joined_selectors-approve :
    (ts xs : List Text) → has_text (joined_selectors (some ts) xs) approve_sig ≡ true
joined_selectors-approve ts xs = elim (Bool-cases (has_text xs approve_sig)) [
  | inl e ↦ rw e e
  | inr e ↦ rw e (has_text-snoc xs approve_sig)
]

module _ (kit : Kit) (parent : List Text) where
  -- The canonical form of the selector is one of the parent's.
  abbrev is_canonical : Text → Bool
  is_canonical s = has_text (map (canonical_selector kit) parent) (canonical_selector kit s)

  all-is_scoped :
      (xs : List Text)
      → all is_canonical xs ≡ true
      → all (is_scoped kit parent) (map (canonical_selector kit) xs) ≡ true
  all-is_scoped xs h = all-map (is_scoped kit parent) (canonical_selector kit) xs (
      all-weaken is_canonical (λ s. is_scoped kit parent (canonical_selector kit s)) xs
        (λ s e. rw e refl) h)

  joined_selectors-scoped :
      (o : Option (List Text)) (xs : List Text)
      → all is_canonical (joined_selectors o xs) ≡ true
      → all
          (is_scoped kit parent)
          (joined_selectors o (map (canonical_selector kit) (joined_selectors o xs)))
        ≡ true
  joined_selectors-scoped none xs h = all-is_scoped xs h
  joined_selectors-scoped (some ts) xs h =
      let own = map (canonical_selector kit) (joined_selectors (some ts) xs) in
      let scoped = all-is_scoped (joined_selectors (some ts) xs) h in
      elim (Bool-cases (has_text own approve_sig)) [
        | inl e ↦ rw e scoped
        | inr e ↦
            let granted =
              all-has_text is_canonical (joined_selectors (some ts) xs) approve_sig h
                (joined_selectors-approve ts xs) in
            rw e (
              all-snoc (is_scoped kit parent) own approve_sig scoped
                (ground (arith, granted, text_eq_refl approve_sig)))
      ]

-- The cap per trade changes nothing else.
attenuate_per_trade_max-caps :
    (parent : Option Text) (child : ContractTerms) {out : ContractTerms}
    → attenuate_per_trade_max parent child ≡ ok out
    → PerTradeWithin parent out.per_trade_max
      × (record child { per_trade_max = out.per_trade_max } ≡ out)
unfolding attenuate_per_trade_max
attenuate_per_trade_max-caps none child {out} h = (
  tt,
  ap (λ (c : ContractTerms). record child { per_trade_max = c.per_trade_max }) (sym (ok_inj h))
      ∙ ok_inj h,
)
attenuate_per_trade_max-caps (some p) child {out} h = elim (Option-cases child.per_trade_max) [
  | inl silent ↦ elim (Bool-cases (has_text child.selectors approve_sig)) [
    | inl e ↦
        capped (record child { per_trade_max = some p }) (inl refl) refl
          (ground (arith, h, silent, e))
    | inr e ↦
        capped child (subst (PerTradeWithin (some p)) (sym silent) tt) refl
          (ground (arith, h, silent, e))
  ]
  | inr (own, given) ↦ elim (Result-cases (usdc_to_atoms own)) [
    | inr (e, failed) ↦ absurd (ground (arith, h, given, failed))
    | inl (n, parsed) ↦ elim (Result-cases (usdc_to_atoms p)) [
      | inr (e, failed) ↦ absurd (ground (arith, h, given, parsed, failed))
      | inl (cap, limit) ↦
          capped child
            (subst (PerTradeWithin (some p)) (sym given)
              (inr (cap, limit, (n, parsed, ground (arith, h, given, parsed, limit)))))
            refl (ground (arith, h, given, parsed, limit))
    ]
  ]
]
  where
    capped :
        (c : ContractTerms)
        → PerTradeWithin (some p) c.per_trade_max
        → record child { per_trade_max = c.per_trade_max } ≡ c
        → c ≡ out
        → PerTradeWithin (some p) out.per_trade_max
          × (record child { per_trade_max = out.per_trade_max } ≡ out)
    capped c w r same =
        subst
          (λ (x : ContractTerms).
            PerTradeWithin (some p) x.per_trade_max
            × (record child { per_trade_max = x.per_trade_max } ≡ x))
          same (w, r)

check_child_tokens-Within :
    (parent child : Option (List Text))
    → check_child_tokens parent child ≡ ok tt
    → TokensWithin parent child
unfolding check_child_tokens
check_child_tokens-Within none child h = tt
check_child_tokens-Within (some p) none h = tt
check_child_tokens-Within (some p) (some c) h = ground (arith, throw_if-eq-ok _ _ h)

-- The checks that a normalized child passed, on the contract that is normalized once more.
normal-ScopeWithin :
    (kit : Kit) (p given : ContractTerms) (cap : Option Text)
    → addresses_within (normal kit given).targets p.targets ≡ true
    → all (is_canonical kit p.selectors) (normal kit given).selectors ≡ true
    → TokensWithin p.tokens given.tokens
    → PerTradeWithin p.per_trade_max cap
    → ScopeWithin kit
        (some p)
        (some (normal kit (record (normal kit given) { per_trade_max = cap })))
normal-ScopeWithin kit p given cap targets selectors tokens fits = (
  joined_targets-within given.tokens given.targets p.targets targets,
  joined_selectors-scoped kit p.selectors given.tokens
      (map (canonical_selector kit) given.selectors) selectors,
  tokens,
  fits,
)

pub attenuate_contract-Within :
    (kit : Kit) (parent child : Option ContractTerms) {capped out : Option ContractTerms}
    → attenuate_contract kit parent child ≡ ok capped
    → check_contract kit capped ≡ ok out
    → ScopeWithin kit parent out
unfolding attenuate_contract check_contract
attenuate_contract-Within kit none none {capped} {out} h k =
    sym (ok_inj (subst (λ c. check_contract kit c ≡ ok out) (sym (ok_inj h)) k))
attenuate_contract-Within kit (some p) none {capped} {out} h k =
    subst (ScopeWithin kit (some p))
      (ok_inj (subst (λ c. check_contract kit c ≡ ok out) (sym (ok_inj h)) k)) tt
attenuate_contract-Within kit none (some given) h k = cc
attenuate_contract-Within kit (some p) (some given) {capped} {out} h k =
    let (child, normalized, h1) = >>=-eq-ok (normalize_contract kit given) _ h in
    let (_, targets, h2) =
      >>=-eq-ok (throw_if (not (addresses_within child.targets p.targets)) exceeds) _ h1 in
    let (_, selectors, h3) =
      >>=-eq-ok (throw_if (not (all (is_canonical kit p.selectors) child.selectors)) exceeds) _
        h2 in
    let (_, tokens, h4) = >>=-eq-ok (check_child_tokens p.tokens child.tokens) _ h3 in
    let (tight, limited, h5) =
      >>=-eq-ok (attenuate_per_trade_max p.per_trade_max child) (λ c. ok (some c)) h4 in
    let (cap, same) = attenuate_per_trade_max-caps p.per_trade_max child {out = tight} limited in
    let (last, again, h6) =
      >>=-eq-ok (normalize_contract kit tight) (λ c. ok (some c))
        (subst (λ c. check_contract kit c ≡ ok out) (sym (ok_inj h5)) k) in
    let first = normalize_contract-normal kit given {out = child} normalized in
    let twice : normal kit (record (normal kit given) { per_trade_max = tight.per_trade_max })
        ≡ last =
      ap (λ c. normal kit (record c { per_trade_max = tight.per_trade_max })) first
      ∙ ap (normal kit) same
      ∙ normalize_contract-normal kit tight {out = last} again in
    subst (ScopeWithin kit (some p)) (ap some twice ∙ ok_inj h6) (
      normal-ScopeWithin kit p given tight.per_trade_max
        (subst (λ (c : ContractTerms). addresses_within c.targets p.targets ≡ true) (sym first)
          (ground (arith, throw_if-eq-ok _ _ targets)))
        (subst (λ (c : ContractTerms). all (is_canonical kit p.selectors) c.selectors ≡ true)
          (sym first) (ground (arith, throw_if-eq-ok _ _ selectors)))
        (check_child_tokens-Within p.tokens given.tokens (
          subst (λ (c : ContractTerms). check_child_tokens p.tokens c.tokens ≡ ok tt) (sym first)
            tokens))
        cap)
