-- ===== src/Notify/InboxHistory.antt =====
-- What holds of a notification of shared/user_notification_inbox.py through any operations.
use xoc_api_aws.Base.{
  ◌≤◌, String, ◌≡◌, sym, Bool, true, ◌&&◌, Option, List, [], ◌∷◌, ◌==◌, arith, Bool-cases, inl, inr,
  ==→eq,
}
use xoc_api_aws.Base.Store.{ItemStore, one_key}
use xoc_api_aws.Notify.Inbox.{InboxItem}
use xoc_api_aws.Notify.InboxState.{
  rank, IsIndexed, Op, Change, unchanged, written, step, step-Change,
}

both : (a b : Bool) → (a && b) ≡ true → (a ≡ true) × (b ≡ true)
both a b h = ground arith

-- As far as before, and indexed when it was.
abbrev pub IsForward : String → Option InboxItem → Option InboxItem → Type 0
IsForward p before after = (rank before ≤ rank after) × IsIndexed p after

module _ {S : Type 0} (db : ItemStore InboxItem S) where
  Change-IsForward :
      {s s' : S} (p k : String)
      → Change db s s'
      → IsIndexed p (db.get_item s p k)
      → IsForward p (db.get_item s p k) (db.get_item s' p k)
  Change-IsForward p k unchanged h = (omega arith, h)
  Change-IsForward {s} p k (written p' k' item indexed further) h =
      elim (Bool-cases (one_key p' k' p k)) [
        | inr other ↦ rw (db.get-write s p' k' item p k, other) (omega arith, h)
        | inl one ↦
            let (same_p, same_k) = both (p' == p) (k' == k) one in
            rw
              (db.get-write s p' k' item p k, one, sym (==→eq p' p same_p), sym (==→eq k' k same_k))
              (further, indexed)
      ]

  module _ (digest : String → String) where
    unfoldable pub run : S → List Op → S
    run s [] = s
    run s (op ∷ ops) = run (step db digest s op) ops

    -- Through any operations in any order, whatever their late reads show, a notification only moves
    -- on: from none to unread, to read, to archived. Its status stays one of the three and its status
    -- index that of its status.
    pub run-IsForward :
        (s : S) (ops : List Op) (p k : String)
        → IsIndexed p (db.get_item s p k)
        → IsForward p (db.get_item s p k) (db.get_item (run s ops) p k)
    unfolding run
    run-IsForward s [] p k h = (omega arith, h)
    run-IsForward s (op ∷ ops) p k h =
        let (moved, indexed) = Change-IsForward p k (step-Change db digest s op) h in
        let (moved_on, still) = run-IsForward (step db digest s op) ops p k indexed in
        (omega arith, still)
