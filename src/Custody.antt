-- ===== src/Custody.antt =====
-- packages/engine/src/custody.ts: the agent keys and the secrets of cards, encrypted at rest. AES-GCM,
-- the hash, the encodings and the account of a key are parameters, and so is what is drawn at random.
-- The cache of the imported master key is not modelled: importing a key has no other effect.
pub mod RoundTrip
use t3_spend.Prelude.{
  ℕ, ◌+◌, ◌*◌, ◌-◌, Bool, false, not, ◌||◌, ◌&&◌, Option, none, some, List, [], ◌∷◌, ◌++◌, leb,
  ◌==◌, if◌then◌else◌,
}
use t3_spend.Prelude.Lists.{length, take, drop, all}
use t3_spend.Prelude.Texts.{Text, is_digit}
use t3_spend.Prelude.Failures.{Failure, engine, Stage, Result, ok, err, ◌>>=◌, ◌>>◌, throw_if}

-- Bytes are a list of numbers.
abbrev pub Bytes : Type 0
Bytes = List ℕ

pub record Vault : Type 0 where
  -- `process.env.T3SPEND_MASTER_KEY`
  pub master_key_text : Option Text
  -- `TextEncoder`, `TextDecoder`
  pub utf8 : Text → Bytes
  pub from_utf8 : Bytes → Text
  -- AES-GCM with a key and an initialisation vector; `none` where the tag does not fit
  pub seal : Bytes → Bytes → Bytes → Bytes
  pub open_sealed : Bytes → Bytes → Bytes → Option Bytes
  -- `privateKeyToAccount(pk).address`
  pub address_of : Text → Result Text
  pub base64url : Bytes → Text
  -- the hexadecimal SHA-256 digest
  pub sha256_hex : Text → Text

abbrev pub custody_error : Failure
custody_error = engine Stage.custody

abbrev pub iv_bytes : ℕ
iv_bytes = 12

abbrev pub is_hex : ℕ → Bool
is_hex c = is_digit c || (leb 97 c && leb c 102) || (leb 65 c && leb c 70)

abbrev pub hex_value : ℕ → ℕ
hex_value c = if is_digit c then c - 48 else if leb 97 c then c - 87 else c - 55

-- `raw.replace(/^0x/, "")`
unfoldable pub strip_prefix : Text → Text
strip_prefix (a ∷ b ∷ s) = if a == 48 && b == 120 then s else a ∷ b ∷ s
strip_prefix s = s

-- `/^(0x)?[0-9a-fA-F]{64}$/`
unfoldable pub is_master_key : Text → Bool
unfolding strip_prefix
is_master_key raw = length (strip_prefix raw) == 64 && all is_hex (strip_prefix raw)

unfoldable pub hex_to_bytes : Text → Bytes
hex_to_bytes (a ∷ b ∷ s) = (16 * hex_value a + hex_value b) ∷ hex_to_bytes s
hex_to_bytes (a ∷ []) = []
hex_to_bytes [] = []

unfoldable pub master_key : Vault → Result Bytes
unfolding is_master_key hex_to_bytes strip_prefix
master_key v = elim v.master_key_text [
  | none ↦ err custody_error
  | some raw ↦ if is_master_key raw then ok (hex_to_bytes (strip_prefix raw)) else err custody_error
]

-- `iv` is drawn at random.
unfoldable pub encrypt_secret : Vault → Bytes → Text → Result Bytes
unfolding master_key
encrypt_secret v iv plaintext = do key ← master_key v; ok (iv ++ v.seal key iv (v.utf8 plaintext))

unfoldable pub opened : Vault → Option Bytes → Result Text
opened v none = err custody_error
opened v (some plain) = ok (v.from_utf8 plain)

unfoldable pub decrypt_secret : Vault → Bytes → Result Text
unfolding master_key opened
decrypt_secret v blob = do
  throw_if (leb (length blob) iv_bytes) custody_error
  key ← master_key v
  opened v (v.open_sealed key (take iv_bytes blob) (drop iv_bytes blob))

pub record AgentKey : Type 0 where
  pub address : Text
  pub encrypted_pk : Bytes

-- `pk` and `iv` are drawn at random.
unfoldable pub generate_agent_key : Vault → Text → Bytes → Result AgentKey
unfolding encrypt_secret
generate_agent_key v pk iv = do
  address ← v.address_of pk
  blob ← encrypt_secret v iv pk
  ok (record { address = address; encrypted_pk = blob })

-- `fn` gets the decrypted key; its other argument, the account, is not used by any caller.
unfoldable pub with_agent_account {ℓ} : {A : Type ℓ} → Vault → Bytes → (Text → Result A) → Result A
unfolding decrypt_secret
with_agent_account v blob fn = do pk ← decrypt_secret v blob; account ← v.address_of pk; fn pk

-- The 32 bytes are drawn at random.
unfoldable pub generate_card_secret : Vault → Bytes → Text
generate_card_secret v random = v.base64url random

unfoldable pub hash_card_secret : Vault → Text → Text
hash_card_secret v secret = v.sha256_hex secret
