-- ===== src/Store/Cards.antt =====
-- The cards of packages/engine/src/store.ts, but for what walks the card tree.
use t3_spend.Prelude.{
  Bool, false, ◌||◌, ◌&&◌, not, Option, none, some, List, [], ◌∷◌, leb, ◌==◌, if◌then◌else◌,
}
use mathlib.Core.List.{reverse}
use t3_spend.Prelude.Lists.{any, find, filter, update}
use t3_spend.Prelude.Texts.{Text, text_eq, same_address}
use t3_spend.Prelude.Failures.{Result, ok, err, constraint}
use t3_spend.Types.{CardId, UserId}
use t3_spend.Store.{CardStatus, UserRow, CardRow, Store}

-- SELECT * FROM cards WHERE id = $id
unfoldable pub find_card : CardId → List CardRow → Option CardRow
find_card id [] = none
find_card id (c ∷ cs) = let rest = find_card id cs in if c.id == id then some c else rest

unfoldable pub get_card : CardId → Store → Option CardRow
unfolding find_card
get_card id s = find_card id s.cards

-- REFERENCES cards(id): a parent must be there.
unfoldable pub parent_missing : Option CardId → List CardRow → Bool
parent_missing none cs = false
parent_missing (some p) cs = not (any (λ c. c.id == p) cs)

unfoldable pub has_user : UserId → List UserRow → Bool
has_user id = any (λ u. u.id == id)

-- PRIMARY KEY, UNIQUE and the two foreign keys.
unfoldable pub card_conflicts : CardRow → Store → Bool
unfolding parent_missing has_user text_eq
card_conflicts c s =
    any (λ r. r.id == c.id) s.cards
    || any (λ r. text_eq r.secret_hash c.secret_hash) s.cards
    || not (has_user c.user_id s.users)
    || parent_missing c.parent_card_id s.cards

unfoldable pub create_card : CardRow → Store → Result Store
unfolding card_conflicts
create_card c s =
    if card_conflicts c s then err constraint else ok (record s { cards = c ∷ s.cards })

unfoldable pub get_card_by_secret_hash : Text → Store → Option CardRow
unfolding text_eq
get_card_by_secret_hash hash s = find (λ c. text_eq c.secret_hash hash) s.cards

unfoldable pub is_bound_to : Text → CardRow → Bool
unfolding same_address
is_bound_to did c = elim c.t3n_did [ none ↦ false | some d ↦ same_address d did ]

-- Where several cards are bound to one DID the scan meets the oldest row first.
unfoldable pub get_card_by_did : Text → Store → Option CardRow
unfolding is_bound_to
get_card_by_did did s = find (is_bound_to did) (reverse s.cards)

-- ORDER BY created_at
unfoldable pub insert_by_age : CardRow → List CardRow → List CardRow
insert_by_age c [] = c ∷ []
insert_by_age c (d ∷ ds) =
    let rest = insert_by_age c ds in if leb c.created_at d.created_at then c ∷ d ∷ ds else d ∷ rest

unfoldable pub by_age_from : List CardRow → List CardRow → List CardRow
unfolding insert_by_age
by_age_from sorted [] = sorted
by_age_from sorted (c ∷ cs) = by_age_from (insert_by_age c sorted) cs

unfoldable pub by_age : List CardRow → List CardRow
unfolding by_age_from
by_age = by_age_from []

unfoldable pub list_all_cards : Store → List CardRow
unfolding by_age
list_all_cards s = by_age s.cards

unfoldable pub list_cards : UserId → Store → List CardRow
unfolding by_age
list_cards user s = by_age (filter (λ c. c.user_id == user) s.cards)

unfoldable pub is_child_of : CardId → CardRow → Bool
is_child_of p c = elim c.parent_card_id [ none ↦ false | some q ↦ q == p ]

unfoldable pub list_children : CardId → Store → List CardRow
unfolding by_age is_child_of
list_children parent s = by_age (filter (is_child_of parent) s.cards)

abbrev pub with_status : CardStatus → CardRow → CardRow
with_status status c = record c { status = status }

unfoldable pub set_card_status : CardId → CardStatus → Store → Store
set_card_status id status s = record s {
  cards = update (λ c. c.id == id) (with_status status) s.cards;
}

unfoldable pub bind_card_to_did : CardId → Text → Text → Store → Store
bind_card_to_did id did binding s = record s {
  cards =
      update (λ c. c.id == id) (λ c. record c { t3n_did = some did; t3n_binding = some binding })
        s.cards;
}

unfoldable pub unbind_card_did : CardId → Store → Store
unbind_card_did id s = record s {
  cards = update (λ c. c.id == id) (λ c. record c { t3n_did = none; t3n_binding = none }) s.cards;
}

unfoldable pub set_all_user_cards_status : UserId → CardStatus → Store → Store
set_all_user_cards_status user status s = record s {
  cards = update (λ c. c.user_id == user) (with_status status) s.cards;
}

-- The UNIQUE constraint on the hash is checked where there is a row to update.
unfoldable pub rotate_secret : CardId → Text → Option Text → Store → Result Store
unfolding text_eq
rotate_secret id hash secret_enc s =
    if any (λ c. c.id == id) s.cards
      && any (λ c. not (c.id == id) && text_eq c.secret_hash hash) s.cards
    then err constraint
    else ok (record s {
      cards =
          update (λ c. c.id == id) (λ c. record c { secret_hash = hash; secret_enc = secret_enc })
            s.cards;
    })
