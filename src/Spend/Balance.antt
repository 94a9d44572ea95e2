-- ===== src/Spend/Balance.antt =====
-- `cardState` of packages/engine/src/spend.ts, and `parentRemaining` of issuance.ts, which computes
-- the same remainders.
use t3_spend.Prelude.{ℕ, ◌-◌, Bool, Option, none, some, map, ltb, if◌then◌else◌}
use t3_spend.Prelude.Failures.{Result, ok, ◌>>=◌}
use t3_spend.Prelude.Texts.{Text}
use t3_spend.Types.{CardId, PeriodCap, PayTerms, LiveStatus, CardState}
use t3_spend.Money.{usdc_to_atoms, usdc_text}
use t3_spend.Store.{CardStatus, CardRow, Store}
use t3_spend.Store.Window.{period_window}
use t3_spend.Store.Cards.{get_card, list_children}
use t3_spend.Store.Accounting.{subtree_spent_since, subtree_spent_lifetime, subtree_uses_count}
use t3_spend.Compiler.Attenuate.{ParentRemaining}
use t3_spend.Spend.Validate.{is_expired}

-- `cap > spent ? cap - spent : 0n`
abbrev pub left_of : ℕ → ℕ → ℕ
left_of cap spent = if ltb spent cap then cap - spent else 0

-- The remaining period budget, and when it is renewed.
unfoldable pub period_left :
    Store → CardRow → Option PeriodCap → Option ℕ → ℕ → Result (Option (ℕ × ℕ))
period_left s c (some p) (some start_date) now = do
  let window = period_window start_date p.seconds now
  cap ← usdc_to_atoms p.amount
  ok (some (left_of cap (subtree_spent_since c.id window.start s), window.resets_at))
period_left s c _ _ now = ok none

unfoldable pub lifetime_left : Store → CardRow → Option Text → Result (Option ℕ)
lifetime_left s c none = ok none
lifetime_left s c (some lifetime) = do
  cap ← usdc_to_atoms lifetime
  ok (some (left_of cap (subtree_spent_lifetime c.id s)))

abbrev pub period_of : Option PayTerms → Option PeriodCap
period_of none = none
period_of (some t) = t.period

abbrev pub lifetime_of : Option PayTerms → Option Text
lifetime_of none = none
lifetime_of (some t) = t.lifetime

unfoldable pub parent_remaining : Store → CardRow → ℕ → Result ParentRemaining
unfolding period_left lifetime_left
parent_remaining s parent now = do
  period ← period_left s parent (period_of parent.terms.pay) parent.compiled.period_start_date now
  lifetime ← lifetime_left s parent (lifetime_of parent.terms.pay)
  ok (record {
    period_remaining_atoms = elim period [ none ↦ none | some x ↦ some (x.0) ];
    lifetime_remaining_atoms = lifetime;
  })

-- "expired" is derived at read time.
unfoldable pub live_status : CardStatus → Bool → LiveStatus
live_status CardStatus.active expired = if expired then LiveStatus.expired else LiveStatus.active
live_status CardStatus.frozen expired = LiveStatus.frozen
live_status CardStatus.revoked expired = LiveStatus.revoked
live_status CardStatus.nuked expired = LiveStatus.nuked

unfoldable pub state_of : Store → CardRow → ℕ → Result CardState
unfolding period_left lifetime_left live_status
state_of s c now = do
  period ← period_left s c (period_of c.terms.pay) c.compiled.period_start_date now
  lifetime ← lifetime_left s c (lifetime_of c.terms.pay)
  ok (record {
    card_id = c.id;
    name = c.name;
    status = live_status c.status (is_expired c.terms.expiry now);
    terms = c.terms;
    remaining_this_period = elim period [ none ↦ none | some x ↦ some (usdc_text (x.0)) ];
    remaining_lifetime = elim lifetime [ none ↦ none | some n ↦ some (usdc_text n) ];
    period_resets_at = elim period [ none ↦ none | some x ↦ some (x.1) ];
    expires_at = c.terms.expiry;
    uses_remaining = elim c.terms.max_uses [
      | none ↦ none
      | some n ↦ some (n - subtree_uses_count c.id s)
    ];
    subcards = map (λ (d : CardRow). d.id) (list_children c.id s);
  })

unfoldable pub card_state : Store → CardId → ℕ → Result (Option CardState)
unfolding state_of
card_state s id now = elim (get_card id s) [
  | none ↦ ok none
  | some c ↦ (do state ← state_of s c now; ok (some state))
]
