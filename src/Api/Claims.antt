-- ===== src/Api/Claims.antt =====
-- What one id goes through while the finalizes of packages/server/src/api/routes.ts interleave.
use t3_spend.Prelude.{
  arith, ℕ, zero, suc, ◌+◌, ◌≤◌, ◌≡◌, ◌⊎◌, refl, ◌∙◌, Bool, true, false, not, some, List, [], ◌∷◌,
  ◌==◌, ==_refl, Bool-cases, Option-cases, inl, inr,
}
use t3_spend.Prelude.Lists.{all, filter}
use t3_spend.Store.{Store}
use t3_spend.Ops.Admin.Prepared.{PreparedAdminOp}
use t3_spend.Api.{AuthCtx, done, Reply-cases}
use t3_spend.Api.Pending.{
  PendingEntry, fresh_entry, get_entry, delete_entry, set_progress, check_owner, claim_entry,
  begin_finalize,
}
use t3_spend.Api.Sections.{Board, count, is_absent, is_claimed}

-- What is true of an id: it runs or was verified once at most, its entry is claimed while it runs, and
-- gone once it was verified.
pub record Guarded (k : ℕ) (b : Board) : Type 0 where
  pub once : count k b.running + count k b.verified ≤ 1
  pub claimed : 1 ≤ count k b.running → is_claimed k b.pending ≡ true
  pub gone : 1 ≤ count k b.verified → is_absent k b.pending ≡ true

pub all-filter {ℓ} :
    {A : Type ℓ} (p q : A → Bool) (xs : List A) → all p xs ≡ true → all p (filter q xs) ≡ true
all-filter p q [] h = refl
all-filter p q (x ∷ xs) h = elim (Bool-cases (q x)) [
  | inl e ↦ let rest = all-filter p q xs (ground (arith, h)) in ground (arith, rest, e, h)
  | inr e ↦ let rest = all-filter p q xs (ground (arith, h)) in ground (arith, rest, e, h)
]

is_absent-delete_entry : (k : ℕ) (es : List PendingEntry) → is_absent k (delete_entry k es) ≡ true
unfolding delete_entry
is_absent-delete_entry k [] = refl
is_absent-delete_entry k (e ∷ es) = ground (arith, is_absent-delete_entry k es)

pub is_absent-set_progress :
    (k i : ℕ) (b : Bool) (es : List PendingEntry)
    → is_absent k (set_progress i b es) ≡ is_absent k es
unfolding set_progress
is_absent-set_progress k i b [] = refl
is_absent-set_progress k i b (e ∷ es) = ground (arith, is_absent-set_progress k i b es)

is_claimed-set_progress :
    (k : ℕ) (es : List PendingEntry) → is_claimed k (set_progress k true es) ≡ true
unfolding set_progress
is_claimed-set_progress k [] = refl
is_claimed-set_progress k (e ∷ es) = ground (arith, is_claimed-set_progress k es)

pub is_claimed-other :
    (k i : ℕ) (b : Bool) (es : List PendingEntry)
    → (i == k) ≡ false
    → is_claimed k (set_progress i b es) ≡ is_claimed k es
unfolding set_progress
is_claimed-other k i b [] apart = refl
is_claimed-other k i b (e ∷ es) apart = ground (arith, is_claimed-other k i b es apart)

count-removed : (k : ℕ) (xs : List ℕ) → count k (filter (λ i. not (i == k)) xs) ≡ 0
count-removed k [] = refl
count-removed k (x ∷ xs) = ground (arith, count-removed k xs)

pub count-other :
    (k i : ℕ) (xs : List ℕ)
    → (i == k) ≡ false
    → count k (filter (λ x. not (x == i)) xs) ≡ count k xs
count-other k i [] apart = refl
count-other k i (x ∷ xs) apart = ground (arith, count-other k i xs apart)

-- An entry that is not claimed can be seen in the map.
get_entry-open :
    (i : ℕ) (es : List PendingEntry) {e : PendingEntry}
    → get_entry i es ≡ some e
    → (e.id ≡ i) × (is_absent i es ≡ false) × (e.in_progress ≡ false → is_claimed i es ≡ false)
unfolding get_entry
get_entry-open i [] h = cc
get_entry-open i (x ∷ xs) {e} h = elim (Bool-cases (x.id == i)) [
  | inl same ↦ (ground (arith, h, same), ground (arith, same), λ o. ground (arith, h, same, o))
  | inr apart ↦
      let (e1, e2, e3) = get_entry-open i xs {e = e} (ground (arith, h, apart)) in
      (e1, ground (arith, e2), λ o. ground (arith, e3 o))
]

-- A finalize that is let in found its entry unclaimed, and claims it.
pub begin_finalize-inv :
    (wanted : PreparedAdminOp → Bool) (auth : AuthCtx) (i now_ms : ℕ) (s : Store)
    (es : List PendingEntry) {e : PendingEntry}
    → (begin_finalize wanted auth i now_ms s es).0 ≡ done e
    → (is_absent i es ≡ false)
      × (is_claimed i es ≡ false)
      × ((begin_finalize wanted auth i now_ms s es).1 ≡ set_progress i true es)
unfolding begin_finalize claim_entry
begin_finalize-inv wanted auth i now_ms s es {e} h = elim (Option-cases (get_entry i es)) [
  | inl missing ↦ absurd (ground (arith, h, missing))
  | inr (x, found) ↦
      let (named, there, opened) = get_entry-open i es {e = x} found in
      elim (Reply-cases (check_owner auth s x.prepared)) [
        | inr (inl f) ↦ absurd (ground (arith, h, found, f))
        | inr (inr (f, thrown)) ↦ absurd (ground (arith, h, found, thrown))
        | inl (u, mine) ↦
            (there, opened (ground (arith, h, found, mine)), ground (arith, h, found, mine, named))
      ]
]

zero-or-positive : (n : ℕ) → (n ≡ 0) ⊎ (1 ≤ n)
zero-or-positive zero = inl refl
zero-or-positive (suc n) = inr (omega arith)

-- Nobody runs, and nobody was verified, where an entry is unclaimed.
Guarded-idle :
    (k : ℕ) (b : Board)
    → Guarded k b
    → is_absent k b.pending ≡ false
    → is_claimed k b.pending ≡ false
    → (count k b.running ≡ 0) × (count k b.verified ≡ 0)
Guarded-idle k b g there opened = (
  elim (zero-or-positive (count k b.running)) [
    | inl z ↦ z
    | inr pos ↦ absurd (ground (arith, g.claimed pos, opened))
  ],
  elim (zero-or-positive (count k b.verified)) [
    | inl z ↦ z
    | inr pos ↦ absurd (ground (arith, g.gone pos, there))
  ],
)

pub begun-Guarded :
    (k : ℕ) (b : Board)
    → is_absent k b.pending ≡ false
    → is_claimed k b.pending ≡ false
    → Guarded k b
    → Guarded k (record b { pending = set_progress k true b.pending; running = k ∷ b.running })
begun-Guarded k b there opened g =
    let (idle, unseen) = Guarded-idle k b g there opened in
    record {
      once = ground (arith, idle, unseen, ==_refl k);
      claimed = λ h. is_claimed-set_progress k b.pending;
      gone = λ h. absurd (ground (arith, h, unseen));
    }

pub prepared-Guarded :
    (k : ℕ) (p : PreparedAdminOp) (now_ms : ℕ) (b : Board)
    → count k b.running ≡ 0
    → count k b.verified ≡ 0
    → Guarded k b
    → Guarded k (record b { pending = fresh_entry k p now_ms ∷ b.pending })
prepared-Guarded k p now_ms b idle unseen g = record {
  once = g.once;
  claimed = λ h. absurd (ground (arith, h, idle));
  gone = λ h. absurd (ground (arith, h, unseen));
}

pub validated-Guarded :
    (k : ℕ) (b : Board)
    → 1 ≤ count k b.running
    → Guarded k b
    → Guarded k (record {
      pending = delete_entry k b.pending;
      running = filter (λ i. not (i == k)) b.running;
      verified = k ∷ b.verified;
    })
validated-Guarded k b runs g = record {
  once = ground (arith, count-removed k b.running, g.once, runs, ==_refl k);
  claimed = λ h. absurd (ground (arith, h, count-removed k b.running));
  gone = λ h. is_absent-delete_entry k b.pending;
}

pub refused-Guarded :
    (k : ℕ) (b : Board)
    → 1 ≤ count k b.running
    → Guarded k b
    → Guarded k (record b {
      pending = set_progress k false b.pending;
      running = filter (λ i. not (i == k)) b.running;
    })
refused-Guarded k b runs g = record {
  once = ground (arith, count-removed k b.running, g.once);
  claimed = λ h. absurd (ground (arith, h, count-removed k b.running));
  gone = λ h. is_absent-set_progress k k false b.pending ∙ g.gone h;
}

pub ended-Guarded :
    (k : ℕ) (b : Board)
    → 1 ≤ count k b.verified
    → Guarded k b
    → Guarded k (record b { pending = set_progress k false b.pending })
ended-Guarded k b seen g = record {
  once = g.once;
  claimed = λ h. absurd (ground (arith, h, seen, g.once));
  gone = λ h. is_absent-set_progress k k false b.pending ∙ g.gone h;
}

-- A step on another id.
pub other-Guarded :
    (k : ℕ) (b b' : Board)
    → count k b'.running ≡ count k b.running
    → count k b'.verified ≡ count k b.verified
    → (is_claimed k b.pending ≡ true → is_claimed k b'.pending ≡ true)
    → (is_absent k b.pending ≡ true → is_absent k b'.pending ≡ true)
    → Guarded k b
    → Guarded k b'
other-Guarded k b b' runs seen claims leaves g = record {
  once = ground (arith, g.once, runs, seen);
  claimed = λ h. claims (g.claimed (ground (arith, h, runs)));
  gone = λ h. leaves (g.gone (ground (arith, h, seen)));
}
