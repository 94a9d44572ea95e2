-- ===== src/Spend/Confirm/Truth.antt =====
-- What decides a confirmation in `confirmRedemption` of packages/engine/src/spend.ts.
use t3_spend.Prelude.{
  ℕ, ◌≡◌, ◌⊎◌, refl, ap, ◌∙◌, true, false, Option, none, some, List, [], ◌∷◌, arith, is_some,
  Bool-cases, inl, inr,
}
use t3_spend.Prelude.Failures.{Result, ok, err, ok_inj}
use t3_spend.Spend.Confirm.{
  ConfirmStatus, Confirmation, RelayerStatus, FeeLog, Poll, has_status, fee_hit, judge,
  confirm_redemption,
}

-- The relayer says that the transaction failed.
abbrev pub SaysFailed : Result RelayerStatus → Type 0
SaysFailed (ok st) = has_status 500 st.status ≡ true
SaysFailed (err e) = ⊥

-- In some round the relayer says failed, and up to that round no log shows the fee.
abbrev pub FailsUnseen : ℕ → List Poll → Type 0
FailsUnseen fee [] = ⊥
FailsUnseen fee (p ∷ ps) = (fee_hit p.logs fee ≡ none) × (SaysFailed p.hint ⊎ FailsUnseen fee ps)

-- What a round decides, by the relayer's status and the log.
judge-failed :
    (st : RelayerStatus) (hit : Option FeeLog) {c : Confirmation}
    → judge st hit ≡ some c
    → c.status ≡ ConfirmStatus.failed
    → (hit ≡ none) × (has_status 500 st.status ≡ true)
unfolding judge
judge-failed st none h e = ground arith
judge-failed st (some l) h e = ground arith

judge-none : (st : RelayerStatus) (hit : Option FeeLog) → judge st hit ≡ none → hit ≡ none
unfolding judge
judge-none st none h = refl
judge-none st (some l) h = ground arith

-- A confirmation that ends in `failed` was reached in a round in which the relayer said so, and no
-- log read up to then shows the fee of the redemption.
pub confirm_redemption-FailsUnseen :
    (ps : List Poll) (fee : ℕ) {c : Confirmation}
    → confirm_redemption ps fee ≡ ok c
    → c.status ≡ ConfirmStatus.failed
    → FailsUnseen fee ps
unfolding confirm_redemption
confirm_redemption-FailsUnseen [] fee h e = cc
confirm_redemption-FailsUnseen (p ∷ ps) fee {c} h e =
    hinted p.hint refl (λ h'. confirm_redemption-FailsUnseen ps fee h' e)
  where
    round :
        (st : RelayerStatus)
        → p.hint ≡ ok st
        → (o : Option Confirmation) → judge st (fee_hit p.logs fee) ≡ o
        → elim o [ some c ↦ ok c | none ↦ confirm_redemption ps fee ] ≡ ok c
        → (confirm_redemption ps fee ≡ ok c → FailsUnseen fee ps)
        → FailsUnseen fee (p ∷ ps)
    round st same (some d) j h' more =
        let (unseen, says) =
          judge-failed st (fee_hit p.logs fee) j
            (ap (λ (x : Confirmation). x.status) (ok_inj h') ∙ e) in
        (unseen, inl (rw same says))
    round st same none j h' more = (judge-none st (fee_hit p.logs fee) j, inr (more h'))

    hinted :
        (r : Result RelayerStatus)
        → p.hint ≡ r
        → (confirm_redemption ps fee ≡ ok c → FailsUnseen fee ps)
        → FailsUnseen fee (p ∷ ps)
    hinted (ok st) same more =
        round st same (judge st (fee_hit p.logs fee)) refl (rw same at h) more
    hinted (err f) same more = cc

-- The relayer answers in every round until one shows the fee on chain, and does not say failed before.
abbrev pub Lands : ℕ → List Poll → Type 0
Lands fee [] = ⊥
Lands fee (p ∷ ps) =
    (st : RelayerStatus) × (p.hint ≡ ok st)
    × ((is_some (fee_hit p.logs fee) ≡ true) ⊎ ((has_status 500 st.status ≡ false) × Lands fee ps))

judge-seen :
    (st : RelayerStatus) (hit : Option FeeLog)
    → is_some hit ≡ true
    → (c : Confirmation) × (judge st hit ≡ some c) × (c.status ≡ ConfirmStatus.confirmed)
unfolding judge
judge-seen st none h = cc
judge-seen st (some l) h = elim (Bool-cases (has_status 200 st.status)) [
  | inl e ↦ (record { status = ConfirmStatus.confirmed; tx_hash = st.tx_hash }, rw e refl, refl)
  | inr e ↦ (record { status = ConfirmStatus.confirmed; tx_hash = some l.tx_hash }, rw e refl, refl)
]

judge-quiet :
    (st : RelayerStatus) (hit : Option FeeLog)
    → has_status 500 st.status ≡ false
    → (judge st hit ≡ none)
      ⊎ ((c : Confirmation) × (judge st hit ≡ some c) × (c.status ≡ ConfirmStatus.confirmed))
unfolding judge
judge-quiet st (some l) h = inr (judge-seen st (some l) refl)
judge-quiet st none h = elim (Bool-cases (has_status 200 st.status)) [
  | inl e ↦ inr (record { status = ConfirmStatus.confirmed; tx_hash = st.tx_hash }, rw e refl, refl)
  | inr e ↦ inl (rw (e, h) refl)
]

-- If the relayer answers in every round up to one whose logs show the fee, and says in no earlier
-- round that the transaction failed, then the confirmation ends in `confirmed`.
pub confirm_redemption-Lands :
    (ps : List Poll) (fee : ℕ)
    → Lands fee ps
    → (c : Confirmation) × (confirm_redemption ps fee ≡ ok c) × (c.status ≡ ConfirmStatus.confirmed)
unfolding confirm_redemption
confirm_redemption-Lands [] fee h = absurd h
confirm_redemption-Lands (p ∷ ps) fee (st, same, inl seen) =
    let (c, j, e) = judge-seen st (fee_hit p.logs fee) seen in (c, rw (same, j) refl, e)
confirm_redemption-Lands (p ∷ ps) fee (st, same, inr (quiet, rest)) =
    elim (judge-quiet st (fee_hit p.logs fee) quiet) [
      | inl j ↦ rw (same, j) (confirm_redemption-Lands ps fee rest)
      | inr (c, j, e) ↦ (c, rw (same, j) refl, e)
    ]
