-- ===== src/Notify/LedgerOnce.antt =====
-- At most one worker has an event of notifications/inbox.py until its work fails.
use xoc_api_aws.Base.{
  String, ◌≡◌, refl, Bool, true, false, List, [], ◌∷◌, arith, ℕ, ◌+◌, ◌≤◌, All, ◌≢◌, Bool-cases,
  inl, inr,
}
use xoc_api_aws.Base.Store.{ItemStore}
use xoc_api_aws.Notify.Ledger.{LedgerItem}
use xoc_api_aws.Notify.LedgerLock.{
  Lock, held, done, Op, Request, claims, fails, request_at, LockStep, untouched, first, again,
  refused, busy, over, finishes, gives_up, lock, step, step-LockStep,
}

-- Whether a claim of this event was granted.
abbrev grants : Request → Bool → Bool
grants claims b = b
grants r b = false

abbrev count_if : Bool → ℕ → ℕ
count_if true n = 1 + n
count_if false n = n

-- The lock lets no worker in.
abbrev pub IsTaken : Lock → Type 0
IsTaken held = Unit
IsTaken done = Unit
IsTaken l = ⊥

IsTaken-step :
    {l l' : Lock} {r : Request} {b : Bool}
    → LockStep l r b l'
    → r ≢ fails
    → IsTaken l
    → IsTaken l' × (grants r b ≡ false)
IsTaken-step (untouched l b) h t = (t, refl)
IsTaken-step first h t = absurd t
IsTaken-step again h t = absurd t
IsTaken-step refused h t = absurd t
IsTaken-step busy h t = (tt, refl)
IsTaken-step over h t = (tt, refl)
IsTaken-step (finishes l) h t = (tt, refl)
IsTaken-step (gives_up l) h t = absurd (h refl)

IsTaken-grant :
    {l l' : Lock} {r : Request} {b : Bool} → LockStep l r b l' → grants r b ≡ true → IsTaken l'
IsTaken-grant (untouched l b) h = cc
IsTaken-grant first h = tt
IsTaken-grant again h = tt
IsTaken-grant refused h = cc
IsTaken-grant busy h = cc
IsTaken-grant over h = cc
IsTaken-grant (finishes l) h = cc
IsTaken-grant (gives_up l) h = cc

module _ {S : Type 0} (db : ItemStore LedgerItem S) where
  -- How many claims of the event `d` of the tenant `t` are granted in a run.
  unfoldable pub granted : S → String → String → List Op → ℕ
  granted s t d [] = 0
  granted s t d (op ∷ ops) =
      count_if (grants (request_at t d op) (step db s op).0) (granted (step db s op).1 t d ops)

  granted_taken :
      (s : S) (t d : String) (ops : List Op)
      → IsTaken (lock db s t d)
      → All (λ op. request_at t d op ≢ fails) ops
      → granted s t d ops ≡ 0
  unfolding granted
  granted_taken s t d [] h k = refl
  granted_taken s t d (op ∷ ops) h k =
      let (taken, no_grant) = IsTaken-step (step-LockStep db s op t d) k.0 h in
      rw no_grant (granted_taken (step db s op).1 t d ops taken k.1)

  -- In a run of operations in any order, of which none fails this event, at most one of its claims
  -- is granted.
  pub granted_once :
      (s : S) (t d : String) (ops : List Op)
      → All (λ op. request_at t d op ≢ fails) ops
      → granted s t d ops ≤ 1
  unfolding granted
  granted_once s t d [] k = omega arith
  granted_once s t d (op ∷ ops) k =
      elim (Bool-cases (grants (request_at t d op) (step db s op).0)) [
        | inl grant ↦
            rw
              (
                grant,
                granted_taken (step db s op).1 t d ops
                    (IsTaken-grant (step-LockStep db s op t d) grant) k.1,
              )
              (omega arith)
        | inr no_grant ↦ rw no_grant (granted_once (step db s op).1 t d ops k.1)
      ]
