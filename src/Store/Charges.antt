-- ===== src/Store/Charges.antt =====
-- The charges of packages/engine/src/store.ts.
use t3_spend.Prelude.{
  ℕ, Bool, true, false, ◌&&◌, ◌||◌, not, Option, none, some, List, [], ◌∷◌, ltb, leb, ◌==◌,
  if◌then◌else◌, is_some, or_else,
}
use t3_spend.Prelude.Lists.{any, find, filter, update, take}
use t3_spend.Prelude.Texts.{Text, text_eq}
use t3_spend.Prelude.Failures.{Result, ok, err, constraint}
use t3_spend.Types.{CardId, ChargeId}
use t3_spend.Store.{ChargeStatus, ChargeKind, ChargeRow, Store, is_pending}
use t3_spend.Store.ChargeKind.{x402, fiat}

unfoldable pub same_key : Option Text → Option Text → Bool
unfolding text_eq
same_key (some a) (some b) = text_eq a b
same_key _ _ = false

-- PRIMARY KEY, the foreign key, and the partial unique index on (card_id, idempotency_key).
unfoldable pub charge_conflicts : ChargeRow → Store → Bool
unfolding same_key
charge_conflicts ch s =
    any (λ r. r.id == ch.id) s.charges
    || not (any (λ c. c.id == ch.card_id) s.cards)
    || any (λ r. r.card_id == ch.card_id && same_key r.idempotency_key ch.idempotency_key) s.charges

unfoldable pub insert_charge : ChargeRow → Store → Result Store
unfolding charge_conflicts
insert_charge ch s =
    if charge_conflicts ch s then err constraint else ok (record s { charges = ch ∷ s.charges })

-- The fields of `updateCharge`; an absent field is left alone.
pub record ChargeFields : Type 0 where
  pub status : Option ChargeStatus
  pub tx_hash : Option Text
  pub request_id : Option Text
  pub fee_atoms : Option ℕ
  pub since_block : Option ℕ

abbrev pub no_fields : ChargeFields
no_fields = record {
  status = none;
  tx_hash = none;
  request_id = none;
  fee_atoms = none;
  since_block = none;
}

abbrev pub given {ℓ} : {A : Type ℓ} → Option A → Option A → Option A
given none old = old
given (some a) old = some a

abbrev pub set_fields : ChargeFields → ChargeRow → ChargeRow
set_fields f ch = record ch {
  status = or_else f.status ch.status;
  tx_hash = given f.tx_hash ch.tx_hash;
  request_id = given f.request_id ch.request_id;
  fee_atoms = or_else f.fee_atoms ch.fee_atoms;
  since_block = given f.since_block ch.since_block;
}

unfoldable pub update_charge : ChargeId → ChargeFields → Store → Store
update_charge id f s = record s { charges = update (λ ch. ch.id == id) (set_fields f) s.charges }

unfoldable pub get_charge : ChargeId → Store → Option ChargeRow
get_charge id s = find (λ ch. ch.id == id) s.charges

unfoldable pub delete_charge : ChargeId → Store → Store
delete_charge id s = record s { charges = filter (λ ch. not (ch.id == id)) s.charges }

unfoldable pub pending_charges_older_than : ℕ → Store → List ChargeRow
pending_charges_older_than before s =
    filter (λ ch. is_pending ch.status && is_some ch.request_id && ltb ch.created_at before)
      s.charges

abbrev pub is_x402 : ChargeKind → Bool
is_x402 x402 = true
is_x402 _ = false

abbrev pub is_fiat : ChargeKind → Bool
is_fiat fiat = true
is_fiat _ = false

unfoldable pub pending_x402_charges_older_than : ℕ → Store → List ChargeRow
pending_x402_charges_older_than before s =
    filter
      (λ ch.
        is_pending ch.status
        && is_x402 ch.kind
        && not (is_some ch.request_id)
        && ltb ch.created_at before)
      s.charges

unfoldable pub unsettled_fiat_charges : ℕ → Store → List ChargeRow
unsettled_fiat_charges before s =
    filter
      (λ ch.
        is_pending ch.status
        && is_fiat ch.kind
        && not (is_some ch.request_id)
        && ltb ch.created_at before)
      s.charges

unfoldable pub charge_by_idempotency : CardId → Text → Store → Option ChargeRow
unfolding same_key
charge_by_idempotency card key s =
    find (λ ch. ch.card_id == card && same_key ch.idempotency_key (some key)) s.charges

-- ORDER BY created_at DESC, later rows first among equals
unfoldable pub insert_by_recency : ChargeRow → List ChargeRow → List ChargeRow
insert_by_recency c [] = c ∷ []
insert_by_recency c (d ∷ ds) =
    let rest = insert_by_recency c ds in
    if leb d.created_at c.created_at then c ∷ d ∷ ds else d ∷ rest

unfoldable pub by_recency : List ChargeRow → List ChargeRow
unfolding insert_by_recency
by_recency [] = []
by_recency (c ∷ cs) = insert_by_recency c (by_recency cs)

unfoldable pub list_charges : CardId → ℕ → Store → List ChargeRow
unfolding by_recency
list_charges card limit s = take limit (by_recency (filter (λ ch. ch.card_id == card) s.charges))
