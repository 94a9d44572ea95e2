-- ===== src/Issuance/Secrets.antt =====
-- `rotateCardSecret` and `viewCardSecret` of packages/engine/src/issuance.ts.
use t3_spend.Prelude.{Option, none, some}
use t3_spend.Prelude.Texts.{Text}
use t3_spend.Prelude.Failures.{refusal, card_not_found, Result, ok, err, or_throw}
use t3_spend.Prelude.Exec.{◌>>=◌, ◌>>◌, pure, reads, writes}
use t3_spend.Types.{CardId}
use t3_spend.Custody.{
  encrypt_secret, decrypt_secret, generate_card_secret, hash_card_secret, Bytes, Vault,
}
use t3_spend.Store.{Store}
use t3_spend.Store.Cards.{get_card, rotate_secret}
use t3_spend.Issuance.{Issuer, encrypted, pause}

unfoldable pub rotate_card_secret : Issuer → CardId → Store → Result Text × Store
rotate_card_secret i id = do
  card ← reads (λ s. or_throw (get_card id s) (refusal card_not_found))
  let secret = generate_card_secret i.vault i.secret_bytes
  secret_enc ← pause i encrypted (encrypt_secret i.vault i.secret_iv secret)
  writes (rotate_secret id (hash_card_secret i.vault secret) (some secret_enc))
  pure secret

unfoldable pub view_secret : Vault → Option Bytes → Result (Option Text)
view_secret v none = ok none
view_secret v (some blob) = elim (decrypt_secret v blob) [ ok t ↦ ok (some t) | err e ↦ err e ]

unfoldable pub view_card_secret : Vault → Store → CardId → Result (Option Text)
unfolding view_secret
view_card_secret v s id = elim (get_card id s) [
  | none ↦ ok none
  | some c ↦ view_secret v c.secret_enc
]
