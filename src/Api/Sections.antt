-- ===== src/Api/Sections.antt =====
-- The finalizes of admin operations in packages/server/src/api/routes.ts as sections that run between
-- awaits, in any order.
use t3_spend.Prelude.{
  ℕ, ◌+◌, ◌≤◌, ◌≡◌, Bool, true, false, not, ◌||◌, List, [], ◌∷◌, ◌==◌, if◌then◌else◌,
}
use t3_spend.Prelude.Lists.{all, filter}
use t3_spend.Store.{Store}
use t3_spend.Ops.Admin.Prepared.{PreparedAdminOp}
use t3_spend.Api.{AuthCtx, done}
use t3_spend.Api.Pending.{
  PendingEntry, fresh_entry, gc_admin, delete_entry, set_progress, begin_finalize,
}

-- The map, the ids of the finalizes that run and whose signature was not verified yet, and the ids of
-- those whose signature was.
pub record Board : Type 0 where
  pub pending : List PendingEntry
  pub running : List ℕ
  pub verified : List ℕ

abbrev pub count : ℕ → List ℕ → ℕ
count k [] = 0
count k (x ∷ xs) = let rest = count k xs in if x == k then rest + 1 else rest

abbrev pub is_absent : ℕ → List PendingEntry → Bool
is_absent k = all (λ e. not (e.id == k))

abbrev pub is_claimed : ℕ → List PendingEntry → Bool
is_claimed k = all (λ e. not (e.id == k) || e.in_progress)

-- A section of a handler between two awaits.
pub data FinalizeStep : Board → Board → Type 0 where
  -- a new id
  prepared :
      (id : ℕ) (p : PreparedAdminOp) (now_ms : ℕ) (b : Board)
      → is_absent id b.pending ≡ true
      → count id b.running ≡ 0
      → count id b.verified ≡ 0
      → FinalizeStep b (record b { pending = fresh_entry id p now_ms ∷ b.pending })
  collected :
      (now_ms : ℕ) (b : Board) → FinalizeStep b (record b { pending = gc_admin now_ms b.pending })
  begun :
      (wanted : PreparedAdminOp → Bool) (auth : AuthCtx) (id now_ms : ℕ) (s : Store) (b : Board)
      (e : PendingEntry)
      → (begin_finalize wanted auth id now_ms s b.pending).0 ≡ done e
      → FinalizeStep b (record b {
        pending = (begin_finalize wanted auth id now_ms s b.pending).1;
        running = id ∷ b.running;
      })
  -- `onValidated`
  validated :
      (id : ℕ) (b : Board)
      → 1 ≤ count id b.running
      → FinalizeStep b (record {
        pending = delete_entry id b.pending;
        running = filter (λ i. not (i == id)) b.running;
        verified = id ∷ b.verified;
      })
  -- `finally`, where the signature was not verified
  refused :
      (id : ℕ) (b : Board)
      → 1 ≤ count id b.running
      → FinalizeStep b (record b {
        pending = set_progress id false b.pending;
        running = filter (λ i. not (i == id)) b.running;
      })
  -- `finally`, where it was
  ended :
      (id : ℕ) (b : Board)
      → 1 ≤ count id b.verified
      → FinalizeStep b (record b { pending = set_progress id false b.pending })

-- What the sections lead to from a server that starts.
pub data Reached : Board → Type 0 where
  started : Reached (record { pending = []; running = []; verified = [] })
  went : {b b' : Board} → Reached b → FinalizeStep b b' → Reached b'
