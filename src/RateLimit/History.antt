-- ===== src/RateLimit/History.antt =====
-- The limiter of packages/server/src/ratelimit.ts against one that remembers every request it granted.
use t3_spend.Prelude.{
  arith, ℕ, ◌+◌, ◌≤◌, ◌≡◌, refl, sym, ap, ◌∙◌, Bool, true, false, not, List, [], ◌∷◌, ◌++◌, leb,
  if◌then◌else◌, Bool-cases, inl, inr, ◌||◌,
}
use t3_spend.Prelude.Lists.{length, filter, all}
use t3_spend.Prelude.Texts.{Text, text_eq, text_eq_refl, text_eq_sound, text_eq_sym}
use t3_spend.RateLimit.{Hits, RateLimiter, get_hits, set_hits, recent, is_stale, allow}

-- A request, and the time at which it came.
abbrev pub Call : Type 0
Call = Text × ℕ

-- The times of the requests under a key.
unfoldable pub times : Text → List Call → List ℕ
unfolding text_eq
times key [] = []
times key ((k, t) ∷ rest) =
    let others = times key rest in if text_eq k key then t ∷ others else others

-- The abstract limiter: it grants a request where fewer than `limit` were granted in the window before it.
unfoldable pub grants : ℕ → ℕ → List Call → List Call → List Bool
unfolding times
grants limit window past [] = []
grants limit window past ((key, now) ∷ calls) =
    let refused = grants limit window past calls in
    let granted = grants limit window (past ++ (key, now) ∷ []) calls in
    if leb limit (length (recent window now (times key past)))
    then false ∷ refused
    else true ∷ granted

-- The answers of the code to a sequence of requests.
unfoldable pub answers : RateLimiter → List Call → List Bool
unfolding allow
answers l [] = []
answers l ((key, now) ∷ calls) = let (granted, l') = allow key now l in granted ∷ answers l' calls

-- No request comes before the one ahead of it.
abbrev pub InOrder : ℕ → List Call → Type 0
InOrder before [] = Unit
InOrder before ((key, now) ∷ calls) = (before ≤ now) × InOrder now calls

abbrev has_key : Text → Hits → Bool
has_key key [] = false
has_key key ((k, v) ∷ rest) = text_eq k key || has_key key rest

-- A key has one entry.
abbrev pub Distinct : Hits → Type 0
Distinct [] = Unit
Distinct ((k, v) ∷ rest) = (has_key k rest ≡ false) × Distinct rest

pub recent-append :
    (w now : ℕ) (xs ys : List ℕ) → recent w now (xs ++ ys) ≡ recent w now xs ++ recent w now ys
recent-append w now [] ys = refl
recent-append w now (x ∷ xs) ys = ground (arith, recent-append w now xs ys)

pub recent-recent :
    (w now later : ℕ) (xs : List ℕ)
    → now ≤ later
    → recent w later (recent w now xs) ≡ recent w later xs
recent-recent w now later [] h = refl
recent-recent w now later (x ∷ xs) h = ground (arith, recent-recent w now later xs h)

recent-stale :
    (w now later : ℕ) (xs : List ℕ)
    → now ≤ later
    → all (λ t. leb (t + w) now) xs ≡ true
    → recent w later xs ≡ []
recent-stale w now later [] h s = refl
recent-stale w now later (x ∷ xs) h s = ground (arith, recent-stale w now later xs h)

get-set_same : (key : Text) (v : List ℕ) (hits : Hits) → get_hits key (set_hits key v hits) ≡ v
unfolding get_hits set_hits
get-set_same key v [] = rw (text_eq_refl key) refl
get-set_same key v ((k, u) ∷ rest) = ground (arith, get-set_same key v rest)

get-set_other :
    (key other : Text) (v : List ℕ) (hits : Hits)
    → text_eq key other ≡ false
    → get_hits other (set_hits key v hits) ≡ get_hits other hits
unfolding get_hits set_hits
get-set_other key other v [] h = ground (arith, h)
get-set_other key other v ((k, u) ∷ rest) h = elim (Bool-cases (text_eq k key)) [
  | inl e ↦ rw (e, text_eq_sound k key e, h) refl
  | inr e ↦ ground (arith, e, get-set_other key other v rest h)
]

has_key-set :
    (key k : Text) (v : List ℕ) (hits : Hits)
    → has_key k (set_hits key v hits) ≡ (text_eq key k || has_key k hits)
unfolding set_hits
has_key-set key k v [] = refl
has_key-set key k v ((x, u) ∷ rest) = elim (Bool-cases (text_eq x key)) [
  | inl e ↦ rw (e, text_eq_sound x key e) (ground arith)
  | inr e ↦ ground (arith, e, has_key-set key k v rest)
]

pub Distinct-set :
    (key : Text) (v : List ℕ) (hits : Hits) → Distinct hits → Distinct (set_hits key v hits)
unfolding set_hits
Distinct-set key v [] d = (refl, tt)
Distinct-set key v ((k, u) ∷ rest) (fresh, d) = elim (Bool-cases (text_eq k key)) [
  | inl e ↦ rw e (fresh, d)
  | inr e ↦
      rw e
        (rw (has_key-set key k v rest, text_eq_sym key k, e, fresh) refl, Distinct-set key v rest d)
]

has_key-filter :
    (p : Text × List ℕ → Bool) (k : Text) (hits : Hits)
    → has_key k hits ≡ false
    → has_key k (filter p hits) ≡ false
has_key-filter p k [] h = refl
has_key-filter p k (x ∷ hits) h = ground (arith, has_key-filter p k hits)

pub Distinct-filter :
    (p : Text × List ℕ → Bool) (hits : Hits) → Distinct hits → Distinct (filter p hits)
Distinct-filter p [] d = tt
Distinct-filter p ((k, v) ∷ rest) (fresh, d) = elim (Bool-cases (p (k, v))) [
  | inl e ↦ rw e (has_key-filter p k rest fresh, Distinct-filter p rest d)
  | inr e ↦ rw e (Distinct-filter p rest d)
]

get_hits-absent : (k : Text) (hits : Hits) → has_key k hits ≡ false → get_hits k hits ≡ []
unfolding get_hits
get_hits-absent k [] h = refl
get_hits-absent k ((x, v) ∷ rest) h = ground (arith, get_hits-absent k rest)

pub recent-collected :
    (w now later : ℕ) (k : Text) (hits : Hits)
    → now ≤ later
    → Distinct hits
    → recent w later (get_hits k (filter (λ e. not (is_stale w now e)) hits))
      ≡ recent w later (get_hits k hits)
unfolding get_hits
recent-collected w now later k [] h d = refl
recent-collected w now later k ((x, v) ∷ rest) h (fresh, d) = elim (Bool-cases (text_eq x k)) [
  | inl e ↦ elim (Bool-cases (is_stale w now (x, v))) [
    | inl stale ↦
        rw (e, stale)
          (ap (recent w later)
              (get_hits-absent k _ (has_key-filter _ k rest (rw (sym (text_eq_sound x k e)) fresh)))
            ∙ sym (recent-stale w now later v h stale))
    | inr live ↦ rw live (rw e refl)
  ]
  | inr e ↦ ground (arith, e, recent-collected w now later k rest h d)
]

pub times-append : (k : Text) (xs ys : List Call) → times k (xs ++ ys) ≡ times k xs ++ times k ys
unfolding times
times-append k [] ys = refl
times-append k ((x, t) ∷ xs) ys = ground (arith, times-append k xs ys)

-- The limiter remembers as much of the history as later windows see.
pub record Remembers (before : ℕ) (l : RateLimiter) (past : List Call) : Type 0 where
  pub distinct : Distinct l.hits
  pub same :
      (k : Text) (later : ℕ)
      → before ≤ later
      → recent l.window_ms later (get_hits k l.hits) ≡ recent l.window_ms later (times k past)

pub recent-set :
    (w later : ℕ) (key k : Text) (v xs : List ℕ) (hits : Hits)
    → (text_eq key k ≡ true → recent w later v ≡ recent w later xs)
    → (text_eq key k ≡ false → recent w later (get_hits k hits) ≡ recent w later xs)
    → recent w later (get_hits k (set_hits key v hits)) ≡ recent w later xs
recent-set w later key k v xs hits here there = elim (Bool-cases (text_eq key k)) [
  | inl e ↦
      ap (λ q. recent w later (get_hits q (set_hits key v hits))) (sym (text_eq_sound key k e))
      ∙ ap (recent w later) (get-set_same key v hits)
      ∙ here e
  | inr e ↦ ap (recent w later) (get-set_other key k v hits e) ∙ there e
]
