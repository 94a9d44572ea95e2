-- ===== src/Spend/Plan.antt =====
-- The transaction items of `spend` in packages/engine/src/spend.ts: every allowance call stands alone
-- in its item, and the fee leg rides the last item unless that is pinned.
pub mod Shape
use t3_spend.Prelude.{Option, none, some, List, [], ◌∷◌, ◌++◌}
use t3_spend.Prelude.Failures.{Result, ok, ◌>>=◌}
use t3_spend.Types.{WireExecution, SpendMode}
use t3_spend.Compiler.{Kit}
use t3_spend.Compiler.Allowance.{AllowanceCall, decode_allowance_call}

pub record Item : Type 0 where
  pub executions : List WireExecution
  pub pin : Option AllowanceCall

-- `if (run.length) items.push({ executions: run, pin: null })`
unfoldable pub flush : List WireExecution → List Item
flush [] = []
flush (e ∷ es) = record { executions = e ∷ es; pin = none } ∷ []

-- The loop over the work executions, `run` the open item.
unfoldable pub split_items : Kit → List WireExecution → List WireExecution → Result (List Item)
unfolding flush
split_items kit run [] = ok (flush run)
split_items kit run (e ∷ es) = do
  allowance ← decode_allowance_call kit e
  rest ← split_items kit (elim allowance [ none ↦ run ++ e ∷ [] | some _ ↦ [] ]) es
  ok (elim allowance [
    | none ↦ rest
    | some al ↦ flush run ++ record { executions = e ∷ []; pin = some al } ∷ rest
  ])

unfoldable pub plan_items : Kit → SpendMode → List WireExecution → Result (List Item)
unfolding split_items
plan_items kit SpendMode.pay work = ok (record { executions = work; pin = none } ∷ [])
plan_items kit SpendMode.contract work = split_items kit [] work

-- The fee leg: on the last item if that has no pin, else in an item of its own.
unfoldable pub add_fee : WireExecution → List Item → List Item
add_fee fee [] = record { executions = fee ∷ []; pin = none } ∷ []
add_fee fee (i ∷ []) = elim i.pin [
  | none ↦ record i { executions = i.executions ++ fee ∷ [] } ∷ []
  | some _ ↦ i ∷ record { executions = fee ∷ []; pin = none } ∷ []
]
add_fee fee (i ∷ j ∷ is) = i ∷ add_fee fee (j ∷ is)
