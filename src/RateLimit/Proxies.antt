-- ===== src/RateLimit/Proxies.antt =====
-- The address that a request counts under in packages/server/src/ratelimit.ts, against a forged header.
use t3_spend.Prelude.{
  arith, ℕ, zero, suc, ◌+◌, ◌-◌, ◌≤◌, ◌≡◌, refl, ap, ◌∙◌, Option, some, List, [], ◌∷◌, ◌++◌, map,
  ◌==◌, Bool-cases, inl, inr,
}
use t3_spend.Prelude.Lists.{length, filter, get_elem?, length-append}
use t3_spend.Prelude.Texts.{Text}
use t3_spend.Money.{trim}
use t3_spend.RateLimit.{split_commas, non_empty, forwarded, client_ip}

split_commas-first : (s : Text) → (t : Text) × (ts : List Text) × (split_commas s ≡ t ∷ ts)
unfolding split_commas
split_commas-first [] = ([], [], refl)
split_commas-first (c ∷ s) =
    let (t, ts, e) = split_commas-first s in
    elim (Bool-cases (c == 44)) [
      | inl h ↦ ([], t ∷ ts, rw (e, h) refl)
      | inr h ↦ (c ∷ t, ts, rw (e, h) refl)
    ]

split_commas-append : (s t : Text) → split_commas (s ++ 44 ∷ t) ≡ split_commas s ++ split_commas t
unfolding split_commas
split_commas-append [] t = let (u, us, e) = split_commas-first t in rw e refl
split_commas-append (c ∷ s) t =
    let (u, us, e) = split_commas-first s in
    elim (Bool-cases (c == 44)) [
      | inl h ↦ rw (split_commas-append s t) (rw (e, h) refl)
      | inr h ↦ rw (split_commas-append s t) (rw (e, h) refl)
    ]

kept-append :
    (xs ys : List Text)
    → filter non_empty (map trim (xs ++ ys))
      ≡ filter non_empty (map trim xs) ++ filter non_empty (map trim ys)
kept-append [] ys = refl
kept-append (x ∷ xs) ys = ground (arith, kept-append xs ys)

forwarded-append : (s t : Text) → forwarded (s ++ 44 ∷ t) ≡ forwarded s ++ forwarded t
unfolding forwarded
forwarded-append s t =
    ap (λ xs. filter non_empty (map trim xs)) (split_commas-append s t)
    ∙ kept-append (split_commas s) (split_commas t)

get_elem?-append {ℓ} :
    {A : Type ℓ} (xs ys : List A) (i n : ℕ)
    → i ≡ length xs + n
    → get_elem? (xs ++ ys) i ≡ get_elem? ys n
get_elem?-append [] ys i n h = ap (get_elem? ys) (omega (arith, h))
get_elem?-append (x ∷ xs) ys zero n h = absurd (omega (arith, h))
get_elem?-append (x ∷ xs) ys (suc i) n h = get_elem?-append xs ys i n (omega (arith, h))

-- With `hops` proxies to trust, an address is read off the last `hops` entries of the header: what a
-- client wrote ahead of them changes nothing.
pub client_ip-forged :
    (hops : ℕ) (forged trusted : Text) (real : Option Text)
    → hops ≤ length (forwarded trusted)
    → client_ip hops (some (forged ++ 44 ∷ trusted)) real ≡ client_ip hops (some trusted) real
unfolding client_ip
client_ip-forged zero forged trusted real h = refl
client_ip-forged (suc n) forged trusted real h =
    rw (client_ip, forwarded-append forged trusted)
      (rw
        (get_elem?-append (forwarded forged) (forwarded trusted) _
          (length (forwarded trusted) - suc n) place)
        refl)
  where
    place :
        length (forwarded forged ++ forwarded trusted) - suc n
        ≡ length (forwarded forged) + (length (forwarded trusted) - suc n)
    place = omega (arith, length-append (forwarded forged) (forwarded trusted), h)
