-- ===== src/Issuance/Calls.antt =====
-- The calls of packages/engine/src/issuance.ts that write to the store, as one type.
use t3_spend.Prelude.{◌≡◌, refl, ap}
use t3_spend.Prelude.Texts.{Text}
use t3_spend.Prelude.Failures.{Failure, Result, ok, err}
use t3_spend.Types.{CardId}
use t3_spend.Store.{Store}
use t3_spend.Issuance.{Issuer, RootArgs, SubArgs, Agent}
use t3_spend.Issuance.Root.{issue_root_card, PreparedRootCard, finalize_root_card}
use t3_spend.Issuance.Sub.{issue_sub_card}
use t3_spend.Issuance.Did.{issue_card_for_did, PreparedSubCard, finalize_sub_card_for_did}
use t3_spend.Issuance.Secrets.{rotate_card_secret}

pub data IssueCall : Type 0 where
  issues_root : Text → RootArgs → IssueCall
  finalizes_root : PreparedRootCard → Text → IssueCall
  issues_sub : SubArgs → IssueCall
  issues_for_did : Text → RootArgs → Agent → IssueCall
  finalizes_sub : PreparedSubCard → IssueCall
  rotates : CardId → IssueCall

-- The outcome without the value that is returned.
abbrev pub silent : {A : Type 0} → Result A × Store → Result (Unit {0}) × Store
silent (ok a, s) = (ok tt, s)
silent (err e, s) = (err e, s)

unfoldable pub make_call : Issuer → IssueCall → Store → Result (Unit {0}) × Store
make_call i (issues_root signer args) s = silent (issue_root_card i signer args s)
make_call i (finalizes_root p signature) s = silent (finalize_root_card i p signature s)
make_call i (issues_sub args) s = silent (issue_sub_card i args s)
make_call i (issues_for_did signer args agent) s = silent (issue_card_for_did i signer args agent s)
make_call i (finalizes_sub p) s = silent (finalize_sub_card_for_did i p s)
make_call i (rotates id) s = silent (rotate_card_secret i id s)

pub silent-err :
    {A : Type 0} (x : Result A × Store) {e : Failure} {s' : Store}
    → silent x ≡ (err e, s')
    → x ≡ (err e, s')
silent-err (ok a, s) h = cc
silent-err (err f, s) {e} {s'} h =
    ap (λ (y : Result (Unit {0}) × Store). (elim y.0 [ ok _ ↦ err f | err g ↦ err g ], y.1)) h

pub silent-state : {A : Type 0} (x : Result A × Store) → (silent x).1 ≡ x.1
silent-state (ok a, s) = refl
silent-state (err e, s) = refl
