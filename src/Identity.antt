-- ===== src/Identity.antt =====
-- packages/engine/src/identity.ts: the form of an agent's identifier, the messages that agents sign, and
-- the binding of an identifier to a card. JSON is a parameter of the callers.

use t3_spend.Prelude.{
  ℕ, Bool, true, false, ◌&&◌, Option, none, some, ◌++◌, ◌==◌, if◌then◌else◌, is_some,
}
use t3_spend.Prelude.Lists.{length, all, drop}
use t3_spend.Prelude.Texts.{Text, codes}
use t3_spend.Spend.Network.{starts_with}
use t3_spend.Custody.{is_hex}
use t3_spend.Money.{to_text}

pub record T3nBinding : Type 0 where
  pub agent_did : Text
  pub agent_address : Text
  pub bound_at : ℕ
  pub authorized_by_did : Option Text
  pub active : Bool

unfoldable pub did_prefix : Text
did_prefix = codes "did:t3n:"

-- `/^did:t3n:([0-9a-fA-F]{40})$/`, and the group that it captures
unfoldable pub parse_t3n_did : Text → Option Text
unfolding starts_with did_prefix
parse_t3n_did did =
    let hex = drop (length did_prefix) did in
    if starts_with did_prefix did && (length hex == 40 && all is_hex hex) then some hex else none

unfoldable pub is_valid_t3n_did : Text → Bool
unfolding parse_t3n_did
is_valid_t3n_did did = is_some (parse_t3n_did did)

unfoldable pub colon : Text
colon = codes ":"

-- The id of a card is the text of its UUID here.
unfoldable pub build_t3n_challenge : Text → ℕ → Text
unfolding colon
build_t3n_challenge card_id timestamp =
    codes "t3spend:t3n-auth:" ++ card_id ++ colon ++ to_text timestamp

-- `boundAt` is the clock's time.
unfoldable pub create_binding : Text → Text → Option Text → ℕ → T3nBinding
create_binding did address authorized_by now = record {
  agent_did = did;
  agent_address = address;
  bound_at = now;
  authorized_by_did = authorized_by;
  active = true;
}

pub record AttestedReceipt : Type 0 where
  pub agent_did : Text
  pub agent_address : Text
  pub charge_id : Text
  pub card_id : Text
  pub tx_hash : Option Text
  pub amount : Text
  pub fee : Text
  pub attested_at : ℕ
  pub tee_quote : Option Text
  pub tee_verified : Bool

unfoldable pub text_or_null : Option Text → Text
text_or_null none = codes "null"
text_or_null (some t) = t

unfoldable pub build_attestation_message : Text → Text → Option Text → ℕ → Text
unfolding colon text_or_null
build_attestation_message charge card tx timestamp =
    codes "t3spend:t3n-attest:"
    ++ charge
    ++ colon
    ++ card
    ++ colon
    ++ text_or_null tx
    ++ colon
    ++ to_text timestamp

unfoldable pub build_attested_receipt :
    Text
    → Text
    → Text
    → Text
    → Option Text
    → Text
    → Text
    → Option Text
    → Option Bool
    → ℕ
    → AttestedReceipt
build_attested_receipt did address charge card tx amount fee quote verified now = record {
  agent_did = did;
  agent_address = address;
  charge_id = charge;
  card_id = card;
  tx_hash = tx;
  amount = amount;
  fee = fee;
  attested_at = now;
  tee_quote = quote;
  tee_verified = elim verified [ none ↦ false | some b ↦ b ];
}

unfoldable pub build_sub_card_auth_message : Text → Text → Text → ℕ → Text
unfolding colon
build_sub_card_auth_message parent child_name terms_hash timestamp =
    codes "t3spend:t3n-subauth:"
    ++ parent
    ++ colon
    ++ child_name
    ++ colon
    ++ terms_hash
    ++ colon
    ++ to_text timestamp
