-- ===== src/RateLimit/Bounds.antt =====
-- The answers of the limiter of packages/server/src/ratelimit.ts, and how many requests it grants.
use mathlib.Core.List.{append-nil, append_assoc}
use t3_spend.Prelude.{
  arith, ℕ, ◌≤◌, ◌≡◌, refl, sym, ap, ◌∙◌, Bool, true, false, List, [], ◌∷◌, ◌++◌, ltb, leb,
  Bool-cases, inl, inr,
}
use t3_spend.Prelude.Lists.{length, length-append}
use t3_spend.Prelude.Texts.{Text, text_eq, text_eq_sound}
use t3_spend.RateLimit.{Hits, RateLimiter, get_hits, set_hits, recent, collect, allow, new_limiter}
use t3_spend.RateLimit.History.{
  Call, times, grants, answers, InOrder, Remembers, Distinct-set, Distinct-filter, recent-set,
  recent-append, recent-recent, recent-collected, times-append,
}

module _ (key : Text) (now : ℕ) (l : RateLimiter) (past : List Call) (before : ℕ)
    (ordered : before ≤ now) (r : Remembers before l past) where
  abbrev live : List ℕ
  live = recent l.window_ms now (get_hits key l.hits)

  live-times : live ≡ recent l.window_ms now (times key past)
  live-times = r.same key now ordered

  -- In a later window the live hits of the key show what the history shows.
  live-later :
      (k : Text) (later : ℕ)
      → now ≤ later
      → text_eq key k ≡ true
      → recent l.window_ms later live ≡ recent l.window_ms later (times k past)
  live-later k later h e =
      recent-recent l.window_ms now later (get_hits key l.hits) h
      ∙ ap (λ q. recent l.window_ms later (get_hits q l.hits)) (text_eq_sound key k e)
      ∙ r.same k later (omega (arith, ordered, h))

  refused-Remembers : Remembers now (record l { hits = set_hits key live l.hits }) past
  refused-Remembers = record {
    distinct = Distinct-set key live l.hits r.distinct;
    same = λ k later h.
        recent-set l.window_ms later key k live (times k past) l.hits (live-later k later h)
          (λ _. r.same k later (omega (arith, ordered, h)));
  }

  granted : Hits
  granted = set_hits key (live ++ now ∷ []) l.hits

  granted-same :
      (k : Text) (later : ℕ)
      → now ≤ later
      → recent l.window_ms later (get_hits k granted)
        ≡ recent l.window_ms later (times k (past ++ (key, now) ∷ []))
  unfolding granted
  granted-same k later h =
      recent-set l.window_ms later key k (live ++ now ∷ []) (times k (past ++ (key, now) ∷ []))
        l.hits
        (λ e.
          recent-append l.window_ms later live (now ∷ [])
          ∙ ap (λ xs. xs ++ recent l.window_ms later (now ∷ [])) (live-later k later h e)
          ∙ sym (recent-append l.window_ms later (times k past) (now ∷ []))
          ∙ ap (recent l.window_ms later)
              (sym (times-append k past ((key, now) ∷ []) ∙ (unfold times in rw e refl))))
        (λ e.
          r.same k later (omega (arith, ordered, h))
          ∙ ap (recent l.window_ms later) (
              sym (
                times-append k past ((key, now) ∷ [])
                ∙ (unfold times in rw e (append-nil (times k past))))))

  granted-Remembers :
      Remembers now (record l { hits = collect l.window_ms now granted }) (past ++ (key, now) ∷ [])
  unfolding collect
  granted-Remembers = elim (Bool-cases (ltb 5000 (length granted))) [
    | inr e ↦ rw e (record {
      distinct = unfold granted in Distinct-set key (live ++ now ∷ []) l.hits r.distinct;
      same = granted-same;
    })
    | inl e ↦ rw e (record {
      distinct =
          Distinct-filter _ granted
            (unfold granted in Distinct-set key (live ++ now ∷ []) l.hits r.distinct);
      same = λ k later h.
          recent-collected l.window_ms now later k granted h
            (unfold granted in Distinct-set key (live ++ now ∷ []) l.hits r.distinct)
          ∙ granted-same k later h;
    })
  ]

answers-remembered :
    (calls : List Call) (l : RateLimiter) (past : List Call) (before : ℕ)
    → Remembers before l past
    → InOrder before calls
    → answers l calls ≡ grants l.limit l.window_ms past calls
unfolding answers grants allow granted
answers-remembered [] l past before r o = refl
answers-remembered ((key, now) ∷ calls) l past before r (ordered, o) =
    elim (Bool-cases (leb l.limit (length (live key now l past before ordered r)))) [
      | inl full ↦
          let full' = rw (live-times key now l past before ordered r) at full in
          rw full (
            rw full' (
              ap (λ t. false ∷ t)
                (answers-remembered calls _ past now
                  (refused-Remembers key now l past before ordered r) o)))
      | inr room ↦
          let room' = rw (live-times key now l past before ordered r) at room in
          rw room (
            rw room' (
              ap (λ t. true ∷ t)
                (answers-remembered calls _ (past ++ (key, now) ∷ []) now
                  (granted-Remembers key now l past before ordered r) o)))
    ]

-- On requests in the order of their times the limiter answers as the one that remembers every request
-- it granted and counts those of the same key within the window: forgetting old hits and whole keys is
-- never seen.
pub answers-grants :
    (limit window : ℕ) (calls : List Call)
    → InOrder 0 calls
    → answers (new_limiter limit window) calls ≡ grants limit window [] calls
unfolding new_limiter get_hits times
answers-grants limit window calls o =
    answers-remembered calls (new_limiter limit window) [] 0
      (record { distinct = tt; same = λ k later h. refl }) o

-- The requests that were granted.
abbrev pub passed : List Call → List Bool → List Call
passed [] answered = []
passed (c ∷ cs) [] = []
passed (c ∷ cs) (true ∷ bs) = c ∷ passed cs bs
passed (c ∷ cs) (false ∷ bs) = passed cs bs

-- No request comes after the time given.
abbrev pub EndsBy : ℕ → List Call → Type 0
EndsBy later [] = Unit
EndsBy later ((key, now) ∷ calls) = (now ≤ later) × EndsBy later calls

recent-fewer :
    (w now later : ℕ) (xs : List ℕ)
    → now ≤ later
    → length (recent w later xs) ≤ length (recent w now xs)
recent-fewer w now later [] h = omega arith
recent-fewer w now later (x ∷ xs) h = ground (arith, recent-fewer w now later xs h)

granted-few :
    (limit w : ℕ) (k key : Text) (now : ℕ) (past : List Call) (before : ℕ)
    → before ≤ now
    → ((t : ℕ) → before ≤ t → length (recent w t (times k past)) ≤ limit)
    → leb limit (length (recent w now (times key past))) ≡ false
    → (t : ℕ) → now ≤ t
    → length (recent w t (times k (past ++ (key, now) ∷ []))) ≤ limit
unfolding times
granted-few limit w k key now past before ordered few room t h =
    rw (times-append k past ((key, now) ∷ [])) (elim (Bool-cases (text_eq key k)) [
      | inr e ↦ rw e (rw (append-nil (times k past)) (few t (omega (arith, ordered, h))))
      | inl e ↦
          let room' = rw (text_eq_sound key k e) at room in
          rw e (
            rw (recent-append w t (times k past) (now ∷ [])) (
              ground (
                arith,
                length-append (recent w t (times k past)) (recent w t (now ∷ [])),
                recent-fewer w now t (times k past) h,
              )))
    ])

grants-bounded :
    (limit w later : ℕ) (k : Text) (calls : List Call) (past : List Call) (before : ℕ)
    → InOrder before calls
    → EndsBy later calls
    → before ≤ later
    → ((t : ℕ) → before ≤ t → length (recent w t (times k past)) ≤ limit)
    → length (recent w later (times k (past ++ passed calls (grants limit w past calls)))) ≤ limit
unfolding grants
grants-bounded limit w later k [] past before o e h few = rw (append-nil past) (few later h)
grants-bounded limit w later k ((key, now) ∷ calls) past before (ordered, o) (ends, e) h few =
    elim (Bool-cases (leb limit (length (recent w now (times key past))))) [
      | inl full ↦ rw full (
          grants-bounded limit w later k calls past now o e ends
            (λ t later_still. few t (omega (arith, ordered, later_still))))
      | inr room ↦ rw room (
          rw
            (← append_assoc past ((key, now) ∷ [])
              (passed calls (grants limit w (past ++ (key, now) ∷ []) calls)))
            (grants-bounded limit w later k calls (past ++ (key, now) ∷ []) now o e ends
              (granted-few limit w k key now past before ordered few room)))
    ]

-- Whatever requests come, in the order of their times, and whenever one looks after them: of the requests
-- under one key no more than the limit were granted within the window that ends there.
pub answers-bounded :
    (limit window later : ℕ) (key : Text) (calls : List Call)
    → InOrder 0 calls
    → EndsBy later calls
    → length
        (recent window later (times key (passed calls (answers (new_limiter limit window) calls))))
      ≤ limit
unfolding times
answers-bounded limit window later key calls o e =
    rw (answers-grants limit window calls o)
      (grants-bounded limit window later key calls [] 0 o e (omega arith) (λ t h. omega arith))
