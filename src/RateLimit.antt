-- ===== src/RateLimit.antt =====
-- packages/server/src/ratelimit.ts: the address that a request counts under, and the sliding-window
-- limiter. A `Map` is the list of its entries in the order of their insertion.
pub mod History
pub mod Bounds
pub mod Proxies
use t3_spend.Prelude.{
  ℕ, zero, suc, ◌+◌, ◌-◌, Bool, true, false, not, Option, none, some, List, [], ◌∷◌, ◌++◌, map, ltb,
  leb, ◌==◌, if◌then◌else◌,
}
use t3_spend.Prelude.Lists.{length, filter, all, get_elem?}
use t3_spend.Prelude.Texts.{Text, codes, text_eq}
use t3_spend.Money.{trim}

-- `s.split(",")`
unfoldable pub split_commas : Text → List Text
split_commas [] = [] ∷ []
split_commas (c ∷ s) = elim (split_commas s) [
  | [] ↦ (c ∷ []) ∷ []
  | t ∷ ts ↦ if c == 44 then [] ∷ t ∷ ts else (c ∷ t) ∷ ts
]

abbrev pub non_empty : Text → Bool
non_empty [] = false
non_empty (c ∷ s) = true

-- The entries of the header, blank ones left out.
unfoldable pub forwarded : Text → List Text
unfolding split_commas
forwarded header = filter non_empty (map trim (split_commas header))

-- `c.req.header("x-real-ip") || "unknown"`
unfoldable pub real_ip : Option Text → Text
real_ip none = codes "unknown"
real_ip (some []) = codes "unknown"
real_ip (some (c ∷ s)) = c ∷ s

-- `xff[Math.max(0, xff.length - hops)]` where there is a hop to trust and an entry.
unfoldable pub client_ip : ℕ → Option Text → Option Text → Text
unfolding forwarded real_ip
client_ip zero header real = real_ip real
client_ip (suc n) none real = real_ip real
client_ip (suc n) (some header) real =
    elim (get_elem? (forwarded header) (length (forwarded header) - suc n)) [
      | none ↦ real_ip real
      | some ip ↦ ip
    ]

abbrev pub Hits : Type 0
Hits = List (Text × List ℕ)

pub record RateLimiter : Type 0 where
  pub limit : ℕ
  pub window_ms : ℕ
  pub hits : Hits

-- `hits.get(key) ?? []`
unfoldable pub get_hits : Text → Hits → List ℕ
unfolding text_eq
get_hits key [] = []
get_hits key ((k, v) ∷ rest) = let others = get_hits key rest in if text_eq k key then v else others

-- `hits.set(key, v)`: a new key goes to the end.
unfoldable pub set_hits : Text → List ℕ → Hits → Hits
unfolding text_eq
set_hits key v [] = (key, v) ∷ []
set_hits key v ((k, u) ∷ rest) =
    let others = set_hits key v rest in if text_eq k key then (k, v) ∷ rest else (k, u) ∷ others

-- The hits after `now - windowMs`, without the subtraction.
abbrev pub recent : ℕ → ℕ → List ℕ → List ℕ
recent window now = filter (λ t. ltb now (t + window))

-- `v.every((t) => t <= cutoff)`
abbrev pub is_stale : ℕ → ℕ → Text × List ℕ → Bool
is_stale window now entry = all (λ t. leb (t + window) now) (entry.1)

unfoldable pub collect : ℕ → ℕ → Hits → Hits
collect window now hits =
    if ltb 5000 (length hits) then filter (λ e. not (is_stale window now e)) hits else hits

unfoldable pub allow : Text → ℕ → RateLimiter → Bool × RateLimiter
unfolding get_hits set_hits collect
allow key now l =
    let arr = recent l.window_ms now (get_hits key l.hits) in
    if leb l.limit (length arr)
    then (false, record l { hits = set_hits key arr l.hits })
    else (true, record l { hits = collect l.window_ms now (set_hits key (arr ++ now ∷ []) l.hits) })

-- `new RateLimiter(limit, windowMs)`
unfoldable pub new_limiter : ℕ → ℕ → RateLimiter
new_limiter limit window = record { limit = limit; window_ms = window; hits = [] }
