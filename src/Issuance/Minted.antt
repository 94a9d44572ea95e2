-- ===== src/Issuance/Minted.antt =====
-- The sub-cards that `issueSubCard` of packages/engine/src/issuance.ts mints, against their parents.
use mathlib.Core.Path.{subst}
use t3_spend.Prelude.{arith, ◌≡◌, refl, true, false, Option, some, ==_refl, if-inv, inl, inr}
use t3_spend.Prelude.Texts.{Text}
use t3_spend.Prelude.Failures.{ok, ok_inj, Result-cases}
use t3_spend.Custody.{Bytes, encrypt_secret, hash_card_secret}
use t3_spend.Types.{CardId}
use t3_spend.Store.{CardStatus, CardRow, Store}
use t3_spend.Store.Cards.{find_card, get_card, card_conflicts, create_card}
use t3_spend.Ops.{is_active}
use t3_spend.Issuance.{Issuer, encrypted, IssuedCard, Draft, draft_row, forbids_subcards}
use t3_spend.Issuance.Root.{issued, store_card}

-- The parent as it was found: active, and free to mint sub-cards.
pub record MayMint (id : CardId) (s : Store) (parent : CardRow) : Type 0 where
  pub found : get_card id s ≡ some parent
  pub active : is_active parent.status ≡ true
  pub allowed : forbids_subcards parent.terms ≡ false

create_card-find_card :
    (c : CardRow) (s : Store) {s' : Store}
    → create_card c s ≡ ok s'
    → find_card c.id s'.cards ≡ some c
unfolding create_card
create_card-find_card c s {s'} h = elim (if-inv (card_conflicts c s) h) [
  | inl (_, refused) ↦ cc
  | inr (_, stored) ↦
      subst (λ (t : Store). find_card c.id t.cards ≡ some c) (ok_inj stored)
        (unfold find_card in rw (==_refl c.id) refl)
]

-- The row of a draft is in the store, and the caller is told of it.
abbrev pub IsStored :
    Issuer → Draft → Text → Option Text → Option Text → IssuedCard → Store → Type 0
IsStored i d secret did binding card s =
    (blob : Bytes) × (find_card d.id s.cards
      ≡ some (draft_row d (hash_card_secret i.vault secret) blob did binding))
    × (card ≡ issued d secret)

pub store_card-IsStored :
    (i : Issuer) (d : Draft) (secret : Text) (did binding : Option Text) (s : Store)
    {card : IssuedCard} {s' : Store}
    → store_card i d secret did binding s ≡ (ok card, s')
    → IsStored i d secret did binding card s'
unfolding store_card draft_row
store_card-IsStored i d secret did binding s {card} {s'} h =
    elim (Result-cases (encrypt_secret i.vault i.secret_iv secret)) [
      | inr (e, failed) ↦ absurd (ground (arith, failed))
      | inl (blob, done) ↦
          let row = draft_row d (hash_card_secret i.vault secret) blob did binding in
          elim (Result-cases (create_card row (i.between encrypted s))) [
            | inr (e, failed) ↦ absurd (ground (arith, done, failed))
            | inl (t, stored) ↦ (
              blob,
              create_card-find_card row (i.between encrypted s) {s' = s'}
                  (ground (arith, done, stored)),
              ground (arith, done, stored),
            )
          ]
    ]

-- A sub-card in the store: its row names the parent and its owner, is active, and has the terms that the
-- caller is told of.
abbrev pub IsChild : CardRow → IssuedCard → Store → Type 0
IsChild parent card s =
    (row : CardRow) × (find_card card.card_id s.cards ≡ some row)
    × (row.parent_card_id ≡ some parent.id)
    × (row.user_id ≡ parent.user_id)
    × (row.status ≡ CardStatus.active)
    × (row.terms ≡ card.terms)
