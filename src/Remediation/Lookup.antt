-- ===== src/Remediation/Lookup.antt =====
-- The steps of a plan by their keys, and the chains of options, of remediation/rollback.py.
use xoc_api_aws.Base.{
  ℕ, ◌+◌, String, ◌≡◌, refl, subst, Bool, true, false, ◌&&◌, ◌||◌, not, Option, none, some, List,
  [], ◌∷◌, ◌==◌, All, In, here, there, arith, Bool-cases, inl, inr, ◌⊎◌, ==→eq, eq_iff,
}
use xoc_api_aws.Base.Value.{Fields}
use xoc_api_aws.Remediation.Rollback.{
  Steps, is_mutating, step_of, is_known, one_key, chain, check, is_missing,
}

pub chain-some :
    {A B : Type 0} (m : Option A) (f : A → Option B) {b : B}
    → chain m f ≡ some b
    → (a : A) × (m ≡ some a) × (f a ≡ some b)
chain-some none f h = cc
chain-some (some a) f h = (a, refl, h)

pub check-true : (b : Bool) {u : Unit {0}} → check b ≡ some u → b ≡ true
check-true true h = refl
check-true false h = cc

pub some-injective : {A : Type 0} {a b : A} → some a ≡ some b → a ≡ b
some-injective h = cc

pub some_same : {A : Type 0} {o : Option A} {a b : A} → o ≡ some a → o ≡ some b → a ≡ b
some_same h k = cc

pub not-true : (b : Bool) → not b ≡ true → b ≡ false
not-true true h = cc
not-true false h = refl

pub All-map :
    {A : Type 0} (P Q : A → Type 0) (xs : List A) → ((a : A) → P a → Q a) → All P xs → All Q xs
All-map P Q [] f h = tt
All-map P Q (x ∷ xs) f h = (f x h.0, All-map P Q xs f h.1)

pub none-some : {A : Type 0} {a : A} → none ≡ some a → ⊥
none-some h = cc

pub true-false : {b : Bool} → b ≡ true → b ≡ false → ⊥
true-false h k = cc

pub two_more : (n : ℕ) → 2 + n ≡ 1 + (1 + n)
two_more n = omega arith

-- Keys that occur once.
abbrev pub IsUnique : Steps → Type 0
IsUnique [] = Unit
IsUnique ((k, step) ∷ steps) = (is_known k steps ≡ false) × IsUnique steps

pub known-In :
    {k : String} {step : Fields} {steps : Steps} → In (k, step) steps → is_known k steps ≡ true
unfolding is_known
known-In {k} here = rw ((eq_iff k k).1 refl) refl
known-In (there i) = ground (arith, known-In i)

pub step_of_unique :
    {k : String} {step : Fields} {steps : Steps}
    → IsUnique steps
    → In (k, step) steps
    → step_of k steps ≡ some step
unfolding step_of
step_of_unique {k} u here = rw ((eq_iff k k).1 refl) refl
step_of_unique {k} {step} {steps = b ∷ steps} u (there i) = elim (Bool-cases (b.0 == k)) [
  | inr different ↦ rw different (step_of_unique u.1 i)
  | inl same ↦
      let known = known-In i in
      let unknown = subst (λ (x : String). is_known x steps ≡ false) (==→eq b.0 k same) u.0 in
      absurd (true-false known unknown)
]

pub key-All :
    (P : String → Type 0) (ks : List String) (k : String) → All P ks → one_key ks k ≡ true → P k
key-All P [] k h m = cc
key-All P (j ∷ ks) k h m = elim (Bool-cases (j == k)) [
  | inl same ↦ subst P (==→eq j k same) h.0
  | inr other ↦ key-All P ks k h.1 (rw other at m)
]

pub missing_head : (a b c : Bool) → (not a && b || c) ≡ false → (a ≡ true) ⊎ (b ≡ false)
missing_head a b c h = ground arith

pub missing_rest : (a b c : Bool) → (not a && b || c) ≡ false → c ≡ false
missing_rest a b c h = ground arith

pub present :
    (seen : List String) {k : String} {step : Fields} {steps : Steps}
    → is_missing seen steps ≡ false
    → In (k, step) steps
    → (one_key seen k ≡ true) ⊎ (is_mutating step ≡ false)
unfolding is_missing
present seen {steps = []} h i = elim i [ ]
present seen {k} {step} {steps = b ∷ steps} h here =
    missing_head (one_key seen k) (is_mutating step) (is_missing seen steps) h
present seen {k} {step} {steps = b ∷ steps} h (there i) =
    present seen (missing_rest (one_key seen b.0) (is_mutating b.1) (is_missing seen steps) h) i
