-- ===== src/Gateway/Pages.antt =====
-- The page loop and the unread count of tool_gateway/agentcore_providers.py.
use xoc_api_aws.Base.{
  ℕ, zero, suc, ◌+◌, ◌≤◌, ◌≡◌, refl, subst, sym, ap, ◌⊎◌, inl, inr, Bool, true, false, Option, none,
  some, List, [], ◌∷◌, arith, if◌then◌else◌, length, Bool-cases,
}
use xoc_api_aws.Base.Value.{Value, num, dict, Fields, field, end}
use xoc_api_aws.Gateway.Tools.{allowed_arguments}

-- What the table answers to a query: the items, their number and where to go on. A key that is
-- empty is none.
pub record Page : Type 0 where
  pub items : List Value
  pub count : ℕ
  pub last_evaluated_key : Option Value

-- What a generator of pages does when it is run on: the pages that it yields, and whether it then ends
-- or raises a TimeoutError. A caller that stops early has seen the first of these pages.
pub record Yielded : Type 0 where
  pub pages : List Page
  pub ends : Bool

abbrev pub timed_out : Yielded
timed_out = record { pages = []; ends = false }

-- A page, and after it nothing more, or what the page's key leads to.
unfoldable pub after_page : Page → Option Value → Yielded → Yielded
after_page page none rest = record { pages = page ∷ []; ends = true }
after_page page (some key) rest = record { pages = page ∷ rest.pages; ends = rest.ends }

abbrev pub or_empty_key : Option Value → Value
or_empty_key none = Value.null
or_empty_key (some key) = key

some-injective : {A : Type 0} {a b : A} → some a ≡ some b → a ≡ b
some-injective h = cc

none-not-some : {A : Type 0} {a : A} → none ≡ some a → ⊥
none-not-some h = cc

-- `query` is the table's answer for a start key; `late k` says whether the deadline has passed at
-- the k-th look at the clock.
module _ (query : Option Value → Page) (late : ℕ → Bool) where
  -- The loop of ReadOnlyProviders.pages with `n` rounds left.
  unfoldable pub pages_from : ℕ → ℕ → Option Value → Yielded
  unfolding after_page
  pages_from zero k key = timed_out
  pages_from (suc n) k key =
      let page = query key in
      let rest = pages_from n (k + 2) page.last_evaluated_key in
      if late k
      then timed_out
      else if late (k + 1)
      then timed_out
      else after_page page page.last_evaluated_key rest

  -- ReadOnlyProviders.pages, with its 20 rounds, from the k-th look at the clock on
  unfoldable pub pages : ℕ → Yielded
  pages k = pages_from 20 k none

  -- A scan to its end: each page but the last leads to the next one.
  pub data IsScan : Option Value → List Page → Type 0 where
    last :
        {key : Option Value} {page : Page}
        → query key ≡ page
        → page.last_evaluated_key ≡ none
        → IsScan key (page ∷ [])
    more :
        {key : Option Value} {page : Page} {next : Value} {rest : List Page}
        → query key ≡ page
        → page.last_evaluated_key ≡ some next
        → IsScan (some next) rest
        → IsScan key (page ∷ rest)

  -- A beginning of a scan: each page leads further on, to the next one if it is there.
  pub data IsBeginning : Option Value → List Page → Type 0 where
    cut : (key : Option Value) → IsBeginning key []
    follow :
        {key : Option Value} {page : Page} {next : Value} {rest : List Page}
        → query key ≡ page
        → page.last_evaluated_key ≡ some next
        → IsBeginning (some next) rest
        → IsBeginning key (page ∷ rest)

  -- What `n` rounds from the k-th look at the clock on can come to. Every page has taken two looks.
  abbrev pub IsRun : ℕ → ℕ → Option Value → List Page → Bool → Type 0
  IsRun n k key ps true = IsScan key ps × (length ps ≤ n)
  IsRun n k key ps false =
      IsBeginning key ps
      × (length ps ≤ n)
      × ((length ps ≡ n)
          ⊎ (late (k + (length ps + length ps)) ≡ true)
          ⊎ (late (suc (k + (length ps + length ps))) ≡ true))

  look_later : (k l : ℕ) → k + 2 + (l + l) ≡ k + (suc l + suc l)
  look_later k l = omega arith

  one_more :
      (n k : ℕ) (key : Option Value) (page : Page) (next : Value) (ps : List Page) (b : Bool)
      → query key ≡ page
      → page.last_evaluated_key ≡ some next
      → IsRun n (k + 2) (some next) ps b
      → IsRun (suc n) k key (page ∷ ps) b
  one_more n k key page next ps true at_key goes_on (scan, few) =
      (more at_key goes_on scan, omega (arith, few))
  one_more n k key page next ps false at_key goes_on (begins, few, inl all) =
      (follow at_key goes_on begins, omega (arith, few), inl (ap suc all))
  one_more n k key page next ps false at_key goes_on (begins, few, inr (inl passed)) = (
    follow at_key goes_on begins,
    omega (arith, few),
    inr (inl (subst (λ i. late i ≡ true) (look_later k (length ps)) passed)),
  )
  one_more n k key page next ps false at_key goes_on (begins, few, inr (inr passed)) = (
    follow at_key goes_on begins,
    omega (arith, few),
    inr (inr (subst (λ i. late (suc i) ≡ true) (look_later k (length ps)) passed)),
  )

  after-IsRun :
      (n k : ℕ) (key : Option Value) (page : Page) (o : Option Value) (rest : Yielded)
      → query key ≡ page
      → page.last_evaluated_key ≡ o
      → IsRun n (k + 2) o rest.pages rest.ends
      → IsRun (suc n) k key (after_page page o rest).pages (after_page page o rest).ends
  unfolding after_page
  after-IsRun n k key page none rest at_key ends run = (last at_key ends, omega arith)
  after-IsRun n k key page (some next) rest at_key goes_on run =
      one_more n k key page next rest.pages rest.ends at_key goes_on run

  at_once : (k : ℕ) → k ≡ k + (0 + 0)
  at_once k = omega arith

  next_look : (k : ℕ) → k + 1 ≡ suc (k + (0 + 0))
  next_look k = omega arith

  -- When ReadOnlyProviders.pages ends, it has yielded a complete scan, within its rounds: no page is
  -- missing between two pages, and the last one leads nowhere. When it raises a TimeoutError, it has
  -- yielded a beginning of a scan, within its rounds, each page of which leads further on, and its
  -- rounds are used up or the deadline has passed at the look at the clock before or behind the query
  -- for the page that would come next.
  pub pages_from-IsRun :
      (n k : ℕ) (key : Option Value)
      → IsRun n k key (pages_from n k key).pages (pages_from n k key).ends
  unfolding pages_from
  pages_from-IsRun zero k key = (cut key, omega arith, inl refl)
  pages_from-IsRun (suc n) k key = elim (Bool-cases (late k)) [
    | inl passed ↦
        rw passed (cut key, omega arith, inr (inl (subst (λ i. late i ≡ true) (at_once k) passed)))
    | inr before ↦ elim (Bool-cases (late (k + 1))) [
      | inl passed ↦
          rw (before, passed)
            (cut key, omega arith, inr (inr (subst (λ i. late i ≡ true) (next_look k) passed)))
      | inr in_time ↦
          rw (before, in_time)
            (after-IsRun n k key (query key) (query key).last_evaluated_key
              (pages_from n (k + 2) (query key).last_evaluated_key) refl refl
              (pages_from-IsRun n (k + 2) (query key).last_evaluated_key))
    ]
  ]

  -- A run that ends has scanned.
  ends-IsScan :
      (n k : ℕ) (key : Option Value) (ps : List Page) (b : Bool)
      → b ≡ true
      → IsRun n k key ps b
      → IsScan key ps
  ends-IsScan n k key ps true e run = run.0
  ends-IsScan n k key ps false e run = cc

  -- ReadOnlyProviders.pages gives every scan that ends within its rounds, if the deadline does not
  -- pass.
  pub scan-pages_from :
      (n k : ℕ) (key : Option Value) (ps : List Page)
      → IsScan key ps
      → length ps ≤ n
      → ((i : ℕ) → late i ≡ false)
      → pages_from n k key ≡ record { pages = ps; ends = true }
  unfolding pages_from after_page
  scan-pages_from zero k key _ (last at_key ends) fits no_late = absurd (omega (arith, fits))
  scan-pages_from zero k key _ (more at_key goes_on scan) fits no_late =
      absurd (omega (arith, fits))
  scan-pages_from (suc n) k key _ (last at_key ends) fits no_late =
      rw (no_late k, no_late (k + 1), at_key, ends) refl
  scan-pages_from (suc n) k key _ (more at_key goes_on scan) fits no_late =
      rw
        (
          no_late k,
          no_late (k + 1),
          at_key,
          goes_on,
          scan-pages_from n (k + 2) _ _ scan (omega (arith, fits)) no_late,
        )
        refl

  unfoldable pub total_of : List Page → ℕ
  total_of [] = 0
  total_of (page ∷ ps) = page.count + total_of ps

  -- The loop over the pages; an exception of the generator leaves it.
  abbrev pub counted : Yielded → Option Value
  counted run =
      if run.ends then some (dict (field "count" (num (total_of run.pages)) end)) else none

  -- ReadOnlyProviders.unread_count: `none` is one of its exceptions. The table's handle has been
  -- made before, at two more looks at the clock.
  unfoldable pub unread_count : Fields → Option Value
  unfolding total_of
  unread_count arguments =
      if allowed_arguments [] arguments
      then if late 0 then none else if late 1 then none else counted (pages 2)
      else none

  counted-some :
      (run : Yielded) (v : Value)
      → counted run ≡ some v
      → (run.ends ≡ true) × (v ≡ dict (field "count" (num (total_of run.pages)) end))
  counted-some run v h = elim (Bool-cases run.ends) [
    | inl done ↦ (done, sym (some-injective (rw done at h)))
    | inr broken ↦ absurd (none-not-some (rw broken at h))
  ]

  checked_first :
      (a b c : Bool) (o : Option Value) (v : Value)
      → (if a then if b then none else if c then none else o else none) ≡ some v
      → o ≡ some v
  checked_first a b c o v h = ground arith

  -- What unread_count gives is the sum of the counts of a complete scan, never a part of it.
  pub unread_count-IsScan :
      (arguments : Fields) (v : Value)
      → unread_count arguments ≡ some v
      → (ps : List Page) × IsScan none ps × (v ≡ dict (field "count" (num (total_of ps)) end))
  unfolding unread_count pages
  unread_count-IsScan arguments v h =
      let (ends, is_count) =
        counted-some (pages_from 20 2 none) v
          (checked_first (allowed_arguments [] arguments) (late 0) (late 1) _ v h) in
      (
        (pages_from 20 2 none).pages,
        ends-IsScan 20 2 none _ _ ends (pages_from-IsRun 20 2 none),
        is_count,
      )
