-- ===== src/Api/Finalized.antt =====
-- How the finalizes of admin operations in packages/server/src/api/routes.ts interleave.
use t3_spend.Prelude.{
  arith, ℕ, ◌+◌, ◌≤◌, ◌≡◌, refl, sym, ◌∙◌, true, false, not, ◌∷◌, ◌==◌, ==_iff, Bool-cases, inl,
  inr,
}
use t3_spend.Prelude.Lists.{filter}
use t3_spend.Api.Pending.{fresh_entry, gc_admin, delete_entry, set_progress}
use t3_spend.Api.Sections.{
  Board, count, is_absent, is_claimed, FinalizeStep, prepared, collected, begun, validated, refused,
  ended, Reached, started, went,
}
use mathlib.Core.Path.{subst}
use t3_spend.Api.Claims.{
  Guarded, all-filter, is_absent-set_progress, is_claimed-other, count-other, begin_finalize-inv,
  begun-Guarded, prepared-Guarded, validated-Guarded, refused-Guarded, ended-Guarded, other-Guarded,
}

FinalizeStep-Guarded : (k : ℕ) {b b' : Board} → FinalizeStep b b' → Guarded k b → Guarded k b'
FinalizeStep-Guarded k (prepared id p now_ms b absent idle unseen) g = elim (Bool-cases (id == k)) [
  | inl same ↦
      let e = (==_iff id k).0 same in
      subst (λ i. Guarded k (record b { pending = fresh_entry i p now_ms ∷ b.pending })) (sym e)
        (prepared-Guarded k p now_ms b (subst (λ i. count i b.running ≡ 0) e idle)
          (subst (λ i. count i b.verified ≡ 0) e unseen) g)
  | inr apart ↦
      other-Guarded k b _ refl refl (λ h. ground (arith, h, apart)) (λ h. ground (arith, h, apart))
        g
]
FinalizeStep-Guarded k (collected now_ms b) g =
    other-Guarded k b _ refl refl (λ h. unfold gc_admin in all-filter _ _ b.pending h)
      (λ h. unfold gc_admin in all-filter _ _ b.pending h) g
FinalizeStep-Guarded k (begun wanted auth id now_ms s b e h) g =
    let (there, opened, claims) = begin_finalize-inv wanted auth id now_ms s b.pending {e = e} h in
    subst (λ es. Guarded k (record b { pending = es; running = id ∷ b.running })) (sym claims)
      (elim (Bool-cases (id == k)) [
        | inl same ↦
            let e = (==_iff id k).0 same in
            subst
              (λ i.
                Guarded k
                  (record b { pending = set_progress i true b.pending; running = i ∷ b.running }))
              (sym e)
              (begun-Guarded k b (subst (λ i. is_absent i b.pending ≡ false) e there)
                (subst (λ i. is_claimed i b.pending ≡ false) e opened) g)
        | inr apart ↦
            other-Guarded k b _ (ground (arith, apart)) refl
              (λ c. is_claimed-other k id true b.pending apart ∙ c)
              (λ c. is_absent-set_progress k id true b.pending ∙ c) g
      ])
FinalizeStep-Guarded k (validated id b runs) g = elim (Bool-cases (id == k)) [
  | inl same ↦
      let e = (==_iff id k).0 same in
      subst
        (λ i. Guarded k (record {
          pending = delete_entry i b.pending;
          running = filter (λ x. not (x == i)) b.running;
          verified = i ∷ b.verified;
        }))
        (sym e) (validated-Guarded k b (subst (λ i. 1 ≤ count i b.running) e runs) g)
  | inr apart ↦
      other-Guarded k b _ (count-other k id b.running apart) (ground (arith, apart))
        (λ c. unfold delete_entry in all-filter _ _ b.pending c)
        (λ c. unfold delete_entry in all-filter _ _ b.pending c) g
]
FinalizeStep-Guarded k (refused id b runs) g = elim (Bool-cases (id == k)) [
  | inl same ↦
      let e = (==_iff id k).0 same in
      subst
        (λ i. Guarded k (record b {
          pending = set_progress i false b.pending;
          running = filter (λ x. not (x == i)) b.running;
        }))
        (sym e) (refused-Guarded k b (subst (λ i. 1 ≤ count i b.running) e runs) g)
  | inr apart ↦
      other-Guarded k b _ (count-other k id b.running apart) refl
        (λ c. is_claimed-other k id false b.pending apart ∙ c)
        (λ c. is_absent-set_progress k id false b.pending ∙ c) g
]
FinalizeStep-Guarded k (ended id b seen) g = elim (Bool-cases (id == k)) [
  | inl same ↦
      let e = (==_iff id k).0 same in
      subst (λ i. Guarded k (record b { pending = set_progress i false b.pending })) (sym e)
        (ended-Guarded k b (subst (λ i. 1 ≤ count i b.verified) e seen) g)
  | inr apart ↦
      other-Guarded k b _ refl refl (λ c. is_claimed-other k id false b.pending apart ∙ c)
        (λ c. is_absent-set_progress k id false b.pending ∙ c) g
]

Reached-Guarded : (k : ℕ) {b : Board} → Reached b → Guarded k b
Reached-Guarded k started = record { once = omega arith; claimed = λ h. refl; gone = λ h. refl }
Reached-Guarded k (went before step) = FinalizeStep-Guarded k step (Reached-Guarded k before)

-- However the finalizes of prepared operations interleave, an operation's signature is verified once
-- at most, and while one finalize of it runs no other does: the runs and the verifications of an id
-- are together one at most.
pub Reached-once : (k : ℕ) {b : Board} → Reached b → count k b.running + count k b.verified ≤ 1
Reached-once k reached = (Reached-Guarded k reached).once
