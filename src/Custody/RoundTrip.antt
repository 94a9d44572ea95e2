-- ===== src/Custody/RoundTrip.antt =====
-- The encryption of secrets in packages/engine/src/custody.ts, and its inverse.
use mathlib.Core.Path.{subst}
use t3_spend.Prelude.{
  false, leb, ℕ, zero, suc, ◌≤◌, ◌≡◌, refl, ap, some, List, [], ◌∷◌, ◌++◌, arith,
}
use t3_spend.Prelude.Lists.{length, take, drop, length-append}
use t3_spend.Prelude.Texts.{Text}
use t3_spend.Prelude.Failures.{ok, >>=-eq-ok, ok_inj}
use t3_spend.Custody.{Bytes, Vault, iv_bytes, master_key, encrypt_secret, decrypt_secret, opened}

module _ {ℓ} {A : Type ℓ} where
  take-append : (n : ℕ) (xs ys : List A) → length xs ≡ n → take n (xs ++ ys) ≡ xs
  take-append zero [] ys h = refl
  take-append zero (x ∷ xs) ys h = absurd (omega (arith, h))
  take-append (suc n) [] ys h = absurd (omega (arith, h))
  take-append (suc n) (x ∷ xs) ys h = ap (λ t. x ∷ t) (take-append n xs ys (omega (arith, h)))

  drop-append : (n : ℕ) (xs ys : List A) → length xs ≡ n → drop n (xs ++ ys) ≡ ys
  drop-append zero [] ys h = refl
  drop-append zero (x ∷ xs) ys h = absurd (omega (arith, h))
  drop-append (suc n) [] ys h = absurd (omega (arith, h))
  drop-append (suc n) (x ∷ xs) ys h = drop-append n xs ys (omega (arith, h))

-- What AES-GCM promises: a sealed text opens under its key and vector, and carries a tag of 16 bytes.
pub record IsSealing (v : Vault) : Type 0 where
  pub opens : (key iv p : Bytes) → v.open_sealed key iv (v.seal key iv p) ≡ some p
  pub tagged : (key iv p : Bytes) → 16 ≤ length (v.seal key iv p)

module _ (v : Vault) (sealing : IsSealing v) (iv : Bytes) (sized : length iv ≡ iv_bytes) where
  long_enough : (key p : Bytes) → leb (length (iv ++ v.seal key iv p)) iv_bytes ≡ false
  long_enough key p =
      ground (arith, sized, sealing.tagged key iv p, length-append iv (v.seal key iv p))

  decrypted :
      (key : Bytes) (plaintext : Text)
      → v.from_utf8 (v.utf8 plaintext) ≡ plaintext
      → master_key v ≡ ok key
      → decrypt_secret v (iv ++ v.seal key iv (v.utf8 plaintext)) ≡ ok plaintext
  unfolding decrypt_secret opened
  decrypted key plaintext encoded k =
      rw
        (
          long_enough key (v.utf8 plaintext),
          k,
          take-append iv_bytes iv (v.seal key iv (v.utf8 plaintext)) sized,
          drop-append iv_bytes iv (v.seal key iv (v.utf8 plaintext)) sized,
          sealing.opens key iv (v.utf8 plaintext),
          encoded,
        )
        refl

  -- A secret that was encrypted under a vector of twelve bytes is decrypted to itself, where AES-GCM
  -- opens what it sealed and the secret survives its encoding.
  pub decrypt_secret-encrypt_secret :
      (plaintext : Text) {blob : Bytes}
      → v.from_utf8 (v.utf8 plaintext) ≡ plaintext
      → encrypt_secret v iv plaintext ≡ ok blob
      → decrypt_secret v blob ≡ ok plaintext
  unfolding encrypt_secret
  decrypt_secret-encrypt_secret plaintext encoded h =
      let (key, k, e) = >>=-eq-ok (master_key v) _ h in
      subst (λ b. decrypt_secret v b ≡ ok plaintext) (ok_inj e) (decrypted key plaintext encoded k)
