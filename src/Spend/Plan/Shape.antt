-- ===== src/Spend/Plan/Shape.antt =====
-- The shape of the items that `planItems` of packages/engine/src/spend.ts makes.
use mathlib.Core.Path.{subst}
use t3_spend.Prelude.{
  ◌≡◌, refl, sym, ap, ◌∙◌, Option, none, some, List, [], ◌∷◌, ◌++◌, Option-cases, inl, inr,
}
use t3_spend.Prelude.Failures.{ok, ◌>>=◌, >>=-eq-ok, ok_inj}
use t3_spend.Types.{WireExecution, SpendMode}
use t3_spend.Store.Tree.Members.{All}
use t3_spend.Compiler.{Kit}
use t3_spend.Compiler.Allowance.{AllowanceCall, decode_allowance_call}
use t3_spend.Spend.Plan.{Item, flush, split_items, plan_items, add_fee}

abbrev pub all_executions : List Item → List WireExecution
all_executions [] = []
all_executions (i ∷ is) = i.executions ++ all_executions is

module _ {A : Type 0} where
  append_assoc : (xs ys zs : List A) → (xs ++ ys) ++ zs ≡ xs ++ (ys ++ zs)
  append_assoc [] ys zs = refl
  append_assoc (x ∷ xs) ys zs = ap (λ r. x ∷ r) (append_assoc xs ys zs)

  append_nil : (xs : List A) → xs ++ [] ≡ xs
  append_nil [] = refl
  append_nil (x ∷ xs) = ap (λ r. x ∷ r) (append_nil xs)

all_executions-append :
    (is js : List Item) → all_executions (is ++ js) ≡ all_executions is ++ all_executions js
all_executions-append [] js = refl
all_executions-append (i ∷ is) js =
    ap (λ r. i.executions ++ r) (all_executions-append is js)
    ∙ sym (append_assoc i.executions (all_executions is) (all_executions js))

all_executions-flush : (run : List WireExecution) → all_executions (flush run) ≡ run
unfolding flush
all_executions-flush [] = refl
all_executions-flush (e ∷ es) = append_nil (e ∷ es)

-- The fee leg comes last.
all_executions-add_fee :
    (fee : WireExecution) (items : List Item)
    → all_executions (add_fee fee items) ≡ all_executions items ++ fee ∷ []
unfolding add_fee
all_executions-add_fee fee [] = refl
all_executions-add_fee fee (i ∷ []) = elim (Option-cases i.pin) [
  | inl e ↦ rw (e, append_nil i.executions) (append_nil (i.executions ++ fee ∷ []))
  | inr (al, e) ↦ rw (e, append_nil i.executions) refl
]
all_executions-add_fee fee (i ∷ j ∷ is) =
    ap (λ r. i.executions ++ r) (all_executions-add_fee fee (j ∷ is))
    ∙ sym (append_assoc i.executions (all_executions (j ∷ is)) (fee ∷ []))

-- A pinned item holds the one allowance call that it is pinned to, any other item none.
abbrev pub IsIsolated : Kit → Item → Type 0
IsIsolated kit i = PinFits i.pin
  where
    PinFits : Option AllowanceCall → Type 0
    PinFits none = All (λ e. decode_allowance_call kit e ≡ ok none) i.executions
    PinFits (some al) =
        (e : WireExecution) × (i.executions ≡ e ∷ []) × (decode_allowance_call kit e ≡ ok (some al))

module _ (kit : Kit) where
  abbrev ArePlain : List WireExecution → Type 0
  ArePlain = All (λ e. decode_allowance_call kit e ≡ ok none)

  ArePlain-push :
      (run : List WireExecution) (e : WireExecution)
      → ArePlain run
      → decode_allowance_call kit e ≡ ok none
      → ArePlain (run ++ e ∷ [])
  ArePlain-push [] e p q = (q, tt)
  ArePlain-push (x ∷ run) e p q = (p.0, ArePlain-push run e p.1 q)

  IsIsolated-flush :
      (run : List WireExecution) (items : List Item)
      → ArePlain run
      → All (IsIsolated kit) items
      → All (IsIsolated kit) (flush run ++ items)
  unfolding flush
  IsIsolated-flush [] items p h = h
  IsIsolated-flush (e ∷ run) items p h = (p, h)

  -- What the loop gives for an open item and the executions to come.
  abbrev Splits : List WireExecution → List WireExecution → List Item → Type 0
  Splits run es items = (all_executions items ≡ run ++ es) × All (IsIsolated kit) items

  -- One round of the loop.
  Splits-step :
      (run : List WireExecution) (e : WireExecution) (es : List WireExecution)
      (al : Option AllowanceCall) {items : List Item}
      → ArePlain run
      → decode_allowance_call kit e ≡ ok al
      → ((next : List WireExecution) (rest : List Item)
          → ArePlain next
          → split_items kit next es ≡ ok rest
          → Splits next es rest)
      → (split_items kit (elim al [ none ↦ run ++ e ∷ [] | some _ ↦ [] ]) es >>= λ rest.
          ok (elim al [
            | none ↦ rest
            | some al ↦ flush run ++ record { executions = e ∷ []; pin = some al } ∷ rest
          ]))
        ≡ ok items
      → Splits run (e ∷ es) items
  Splits-step run e es none plain dec ih h =
      let (rest, split, same) =
        >>=-eq-ok (split_items kit (run ++ e ∷ []) es) (λ rest. ok rest) h in
      let (work, isolated) = ih (run ++ e ∷ []) rest (ArePlain-push run e plain dec) split in
      subst (Splits run (e ∷ es)) (ok_inj same) (work ∙ append_assoc run (e ∷ []) es, isolated)
  Splits-step run e es (some al) plain dec ih h =
      let pinned =
        λ (rest : List Item). flush run ++ record { executions = e ∷ []; pin = some al } ∷ rest in
      let (rest, split, same) = >>=-eq-ok (split_items kit [] es) (λ rest. ok (pinned rest)) h in
      let (work, isolated) = ih [] rest tt split in
      subst (Splits run (e ∷ es)) (ok_inj same) (
        all_executions-append (flush run) _
            ∙ ap (λ r. r ++ e ∷ all_executions rest) (all_executions-flush run)
            ∙ ap (λ r. run ++ e ∷ r) work,
        IsIsolated-flush run _ plain ((e, refl, dec), isolated),
      )

  split_items-Splits :
      (run es : List WireExecution) {items : List Item}
      → ArePlain run
      → split_items kit run es ≡ ok items
      → Splits run es items
  unfolding split_items
  split_items-Splits run [] plain h = subst (Splits run []) (ok_inj h) (
    all_executions-flush run ∙ sym (append_nil run),
    subst (All (IsIsolated kit)) (append_nil (flush run)) (IsIsolated-flush run [] plain tt),
  )
  split_items-Splits run (e ∷ es) plain h =
      let (al, dec, h') = >>=-eq-ok (decode_allowance_call kit e) _ h in
      Splits-step run e es al plain dec (λ next rest p s. split_items-Splits next es p s) h'

  -- The planned items with the fee leg added carry the work executions in their order, then the fee.
  pub plan_items-work :
      (mode : SpendMode) (work : List WireExecution) (fee : WireExecution) {items : List Item}
      → plan_items kit mode work ≡ ok items
      → all_executions (add_fee fee items) ≡ work ++ fee ∷ []
  unfolding plan_items
  plan_items-work mode work fee {items} h =
      all_executions-add_fee fee items ∙ ap (λ r. r ++ fee ∷ []) (planned mode h)
    where
      planned :
          (mode : SpendMode) → plan_items kit mode work ≡ ok items → all_executions items ≡ work
      planned SpendMode.pay e = ap all_executions (sym (ok_inj e)) ∙ append_nil work
      planned SpendMode.contract e = (split_items-Splits [] work tt e).0

  -- In contract mode every planned item holds either one allowance call, to which it is pinned, or no
  -- allowance call at all.
  pub plan_items-IsIsolated :
      (work : List WireExecution) {items : List Item}
      → plan_items kit SpendMode.contract work ≡ ok items
      → All (IsIsolated kit) items
  unfolding plan_items
  plan_items-IsIsolated work h = (split_items-Splits [] work tt h).1
