-- ===== src/Base/Strip.antt =====
-- What `strip` gives: a text that neither starts nor ends with a space.
use Prim.Native.Char.{Char}
use Prim.Native.String.{String, [], ◌∷◌, ◌++◌}
use mathlib.Core.Path.{◌≡◌, refl, ◌∙◌, ap, subst}
use mathlib.Core.Logic.{inl, inr}
use mathlib.Core.Bool.{Bool, false, ◌&&◌}
use native.Mathlib.Omega.{arith}
use Prim.Native.Nat.{ℕ, zero, suc, ◌+◌}
use xoc_api_aws.Base.Tests.{◌==◌, if◌then◌else◌, Bool-cases, ne→==}
use package.text.Mathlib.TextLemmas.{nil-append, cons-append}
use xoc_api_aws.Base.Text.{lstrip_by, rstrip_by, strip_by, strip, is_space, is_longer}

cons_full : (c : Char) (s : String) → (c ∷ s == "") ≡ false
cons_full c s = ne→== (c ∷ s) "" (λ e. cc)

module _ (p : Char → Bool) where
  -- The text does not start with a character that passes the test.
  abbrev IsSolid : String → Type 0
  IsSolid [] = Unit
  IsSolid (c ∷ s) = p c ≡ false

  IsSolid-lstrip : (s : String) → IsSolid (lstrip_by p s)
  unfolding lstrip_by
  IsSolid-lstrip [] = tt
  IsSolid-lstrip (c ∷ s) = elim (Bool-cases (p c)) [
    | inl space ↦ rw space (IsSolid-lstrip s)
    | inr solid ↦ rw solid solid
  ]

  lstrip_solid : (s : String) → IsSolid s → lstrip_by p s ≡ s
  unfolding lstrip_by
  lstrip_solid [] h = refl
  lstrip_solid (c ∷ s) h = rw h refl

  IsSolid-rstrip : (s : String) → IsSolid s → IsSolid (rstrip_by p s)
  unfolding rstrip_by
  IsSolid-rstrip [] h = tt
  IsSolid-rstrip (c ∷ s) h = rw h h

  rstrip-rstrip : (s : String) → rstrip_by p (rstrip_by p s) ≡ rstrip_by p s
  unfolding rstrip_by
  rstrip-rstrip [] = refl
  rstrip-rstrip (c ∷ s) = elim (Bool-cases (p c && rstrip_by p s == "")) [
    | inl blank ↦ rw blank refl
    | inr full ↦ rw full (rw (rstrip-rstrip s, full) refl)
  ]

  IsSolid-append : (a y : String) → IsSolid a → (a == "") ≡ false → IsSolid (a ++ y)
  IsSolid-append [] y h full = cc
  IsSolid-append (c ∷ a) y h full = rw (cons-append c a y) h

  append_full : (x b : String) → (b == "") ≡ false → (x ++ b == "") ≡ false
  append_full [] b full = rw (nil-append b) full
  append_full (c ∷ x) b full = rw (cons-append c x b) (cons_full c (x ++ b))

  rstrip-append :
      (x b : String) → rstrip_by p b ≡ b → (b == "") ≡ false → rstrip_by p (x ++ b) ≡ x ++ b
  unfolding rstrip_by
  rstrip-append [] b kept full = rw (nil-append b) kept
  rstrip-append (c ∷ x) b kept full =
      rw (cons-append c x b)
        (rw (rstrip-append x b kept full, append_full x b full) (ends (p c) (c ∷ (x ++ b))))
    where
      ends : (d : Bool) (s : String) → (if d && false then "" else s) ≡ s
      ends d s = ground arith

-- A text that `strip` leaves.
pub record IsStripped (s : String) : Type 0 where
  pub starts : IsSolid is_space s
  pub ends : rstrip_by is_space s ≡ s

pub strip-IsStripped : (s : String) → IsStripped (strip s)
unfolding strip strip_by
strip-IsStripped s = record {
  starts = IsSolid-rstrip is_space (lstrip_by is_space s) (IsSolid-lstrip is_space s);
  ends = rstrip-rstrip is_space (lstrip_by is_space s);
}

pub strip_stripped : (s : String) → IsStripped s → strip s ≡ s
unfolding strip strip_by
strip_stripped s h = ap (rstrip_by is_space) (lstrip_solid is_space s h.starts) ∙ h.ends

-- Two such texts with something between them.
pub IsStripped-append :
    (a x b : String)
    → IsStripped a
    → (a == "") ≡ false
    → IsStripped b
    → (b == "") ≡ false
    → IsStripped (a ++ (x ++ b))
IsStripped-append a x b start a_full end_ b_full = record {
  starts = IsSolid-append is_space a (x ++ b) start.starts a_full;
  ends =
      rstrip-append is_space a (x ++ b) (rstrip-append is_space x b end_.ends b_full)
        (append_full is_space x b b_full);
}

pub nonempty-append : (a y : String) → (a == "") ≡ false → (a ++ y == "") ≡ false
nonempty-append [] y full = cc
nonempty-append (c ∷ a) y full = rw (cons-append c a y) (cons_full c (a ++ y))

suc_plus : (m n : ℕ) → suc m + n ≡ suc (m + n)
suc_plus m n = omega arith

plus_suc : (m n : ℕ) → m + suc n ≡ suc (m + n)
plus_suc m n = omega arith

pub longer_more : (m n : ℕ) (s : String) → is_longer n s ≡ false → is_longer (m + n) s ≡ false
unfolding is_longer
longer_more m n [] k = refl
longer_more m zero (c ∷ s) k = cc
longer_more m (suc n) (c ∷ s) k = rw (plus_suc m n) (longer_more m n s k)

-- The length of a text is at most the sum of the lengths of its parts.
pub is_longer-append :
    (m n : ℕ) (a b : String)
    → is_longer m a ≡ false
    → is_longer n b ≡ false
    → is_longer (m + n) (a ++ b) ≡ false
unfolding is_longer
is_longer-append m n [] b h k = rw (nil-append b) (longer_more m n b k)
is_longer-append zero n (c ∷ a) b h k = cc
is_longer-append (suc m) n (c ∷ a) b h k =
    rw (cons-append c a b, suc_plus m n) (is_longer-append m n a b h k)

-- A test whether a text is one that `strip` leaves.
pub decide-IsStripped : (s : String) → strip s ≡ s → IsStripped s
decide-IsStripped s h = subst IsStripped h (strip-IsStripped s)
