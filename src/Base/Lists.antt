-- ===== src/Base/Lists.antt =====
-- Lists measured by native numbers and searched by tests, as Python's lists and the rows of a table.
use Prim.Native.Nat.{ℕ, zero, suc, ◌+◌}
use mathlib.Core.Path.{◌≡◌, refl, ap, subst}
use mathlib.Core.Logic.{inl, inr}
use mathlib.Core.Bool.{Bool, true, false, ◌&&◌, ◌||◌}
use mathlib.Core.Option.{Option, none, some}
use mathlib.Core.List.{List, [], ◌∷◌, ◌++◌}
use native.Mathlib.Omega.{arith}
use groundloom.Base.Tests.{if◌then◌else◌, Bool-cases}

module _ {ℓ} {A : Type ℓ} where
  abbrev pub length : List A → ℕ
  length [] = 0
  length (x ∷ xs) = suc (length xs)

  -- `next((x for x in xs if p(x)), None)`, and `query.filter_by(...).first()`
  abbrev pub find : (A → Bool) → List A → Option A
  find p [] = none
  find p (x ∷ xs) = if p x then some x else find p xs

  -- `next((i for i, x in enumerate(xs) if p(x)), None)`
  abbrev pub find_index : (A → Bool) → List A → Option ℕ
  find_index p [] = none
  find_index p (x ∷ xs) =
      let rest = find_index p xs in
      if p x then some 0 else elim rest [ none ↦ none | some i ↦ some (suc i) ]

  -- `[x for x in xs if p(x)]`
  abbrev pub keep : (A → Bool) → List A → List A
  keep p [] = []
  keep p (x ∷ xs) = let rest = keep p xs in if p x then x ∷ rest else rest

  abbrev pub any : (A → Bool) → List A → Bool
  any p [] = false
  any p (x ∷ xs) = p x || any p xs

  abbrev pub all : (A → Bool) → List A → Bool
  all p [] = true
  all p (x ∷ xs) = p x && all p xs

  -- `xs.insert(i, x)`: an index past the end appends.
  abbrev pub insert_at : ℕ → A → List A → List A
  insert_at zero a xs = a ∷ xs
  insert_at (suc i) a [] = a ∷ []
  insert_at (suc i) a (x ∷ xs) = x ∷ insert_at i a xs

  -- `xs.remove(x)` for the first element that passes the test.
  abbrev pub remove_first : (A → Bool) → List A → List A
  remove_first p [] = []
  remove_first p (x ∷ xs) = let rest = remove_first p xs in if p x then xs else x ∷ rest

  -- `xs[:n]`
  abbrev pub take : ℕ → List A → List A
  take zero xs = []
  take (suc n) [] = []
  take (suc n) (x ∷ xs) = x ∷ take n xs

  pub length-append : (xs ys : List A) → length (xs ++ ys) ≡ length xs + length ys
  length-append [] ys = omega arith
  length-append (x ∷ xs) ys = omega (arith, length-append xs ys)

module _ {ℓ} {A : Type ℓ} where
  pub append_nil : (xs : List A) → xs ++ [] ≡ xs
  append_nil [] = refl
  append_nil (x ∷ xs) = ap (λ l. x ∷ l) (append_nil xs)

  pub append_assoc : (xs ys zs : List A) → (xs ++ ys) ++ zs ≡ xs ++ (ys ++ zs)
  append_assoc [] ys zs = refl
  append_assoc (x ∷ xs) ys zs = ap (λ l. x ∷ l) (append_assoc xs ys zs)

  -- What is found passes the test.
  pub find-passes : (test : A → Bool) (xs : List A) (x : A) → find test xs ≡ some x → test x ≡ true
  find-passes test [] x h = cc
  find-passes test (y ∷ ys) x h = elim (Bool-cases (test y)) [
    | inl e ↦
        let found : some y ≡ some x = rw e at h in
        let same : y ≡ x = cc found in subst (λ z. test z ≡ true) same e
    | inr e ↦ find-passes test ys x (rw e at h)
  ]

  -- A row that is added last is found if none before it passes the test.
  pub find-last :
      (test : A → Bool) (xs : List A) (x : A)
      → find test xs ≡ none
      → test x ≡ true
      → find test (xs ++ x ∷ []) ≡ some x
  find-last test [] x h t = rw t
  find-last test (y ∷ ys) x h t = elim (Bool-cases (test y)) [
    | inl e ↦ let found = rw e at h in absurd (cc found)
    | inr e ↦ rw e (find-last test ys x (rw e at h) t)
  ]

-- A predicate of every element, which computes to a tuple.
abbrev pub All {ℓ κ} : {A : Type ℓ} → (A → Type κ) → List A → Type κ
All P [] = Unit
All P (x ∷ xs) = P x × All P xs

module _ {ℓ κ} {A : Type ℓ} (P : A → Type κ) where
  pub All-append : (xs ys : List A) → All P xs → All P ys → All P (xs ++ ys)
  All-append [] ys h k = k
  All-append (x ∷ xs) ys h k = (h.0, All-append xs ys h.1 k)

  pub All-keep : (test : A → Bool) (xs : List A) → All P xs → All P (keep test xs)
  All-keep test [] h = tt
  All-keep test (x ∷ xs) h = elim (Bool-cases (test x)) [
    | inl e ↦ rw e (h.0, All-keep test xs h.1)
    | inr e ↦ rw e (All-keep test xs h.1)
  ]

  pub find-All : (test : A → Bool) (xs : List A) (x : A) → find test xs ≡ some x → All P xs → P x
  find-All test [] x h k = cc
  find-All test (y ∷ ys) x h k = elim (Bool-cases (test y)) [
    | inl e ↦
        let found : some y ≡ some x = rw e at h in let same : y ≡ x = cc found in subst P same k.0
    | inr e ↦ find-All test ys x (rw e at h) k.1
  ]

  pub All-weaken : {Q : A → Type κ} (xs : List A) → ((x : A) → P x → Q x) → All P xs → All Q xs
  All-weaken [] f h = tt
  All-weaken (x ∷ xs) f h = (f x h.0, All-weaken xs f h.1)

  pub All-insert_at : (i : ℕ) (a : A) (xs : List A) → P a → All P xs → All P (insert_at i a xs)
  All-insert_at zero a xs p h = (p, h)
  All-insert_at (suc i) a [] p h = (p, tt)
  All-insert_at (suc i) a (x ∷ xs) p h = (h.0, All-insert_at i a xs p h.1)
