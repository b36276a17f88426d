-- ===== src/Projects/Texts.antt =====
-- The order of texts by the numbers of their characters, in which the database compares ids.
use Prim.Native.Char.{Char, code}
use Prim.Native.Nat.{compare, Ordering}
use groundloom.Base.{
  ℕ, String, Bool, true, false, ltb, nat_eq, ◌≡◌, refl, arith, ◌⊎◌, inl, inr, if◌then◌else◌,
  Bool-cases, ap₂,
}
use text.Mathlib.TextEquality.{codes_equal}

abbrev pub less_first : ℕ → ℕ → Bool → Bool
less_first c d rest = if ltb c d then true else if nat_eq c d then rest else false

-- `s < t`
unfoldable pub less : String → String → Bool
less String.[] String.[] = false
less String.[] (String.◌∷◌ d t) = true
less (String.◌∷◌ c s) String.[] = false
less (String.◌∷◌ c s) (String.◌∷◌ d t) = let rest = less s t in less_first (code c) (code d) rest

pub less_irreflexive : (s : String) → less s s ≡ false
unfolding less
less_irreflexive String.[] = refl
less_irreflexive (String.◌∷◌ c s) = ground (arith, less_irreflexive s)

pub less_transitive : (s t u : String) → less s t ≡ true → less t u ≡ true → less s u ≡ true
unfolding less
less_transitive String.[] String.[] u h k = cc
less_transitive s (String.◌∷◌ d t) String.[] h k = cc
less_transitive String.[] (String.◌∷◌ d t) (String.◌∷◌ e u) h k = refl
less_transitive (String.◌∷◌ c s) String.[] u h k = cc
less_transitive (String.◌∷◌ c s) (String.◌∷◌ d t) (String.◌∷◌ e u) h k =
    ground (arith, less_transitive s t u)

by_rest :
    (c d : Char) (s t : String)
    → compare (code c) (code d) ≡ Ordering.eq
    → (less s t ≡ true) ⊎ ((less t s ≡ true) ⊎ (s ≡ t))
    → (less (String.◌∷◌ c s) (String.◌∷◌ d t) ≡ true)
      ⊎ ((less (String.◌∷◌ d t) (String.◌∷◌ c s) ≡ true) ⊎ (String.◌∷◌ c s ≡ String.◌∷◌ d t))
unfolding less
by_rest c d s t same (inl h) = inl (ground (arith, h, same))
by_rest c d s t same (inr (inl h)) = inr (inl (ground (arith, h, same)))
by_rest c d s t same (inr (inr h)) = inr (inr (ap₂ String.◌∷◌ (codes_equal c d same) h))

pub less-total : (s t : String) → (less s t ≡ true) ⊎ ((less t s ≡ true) ⊎ (s ≡ t))
unfolding less
less-total String.[] String.[] = inr (inr refl)
less-total String.[] (String.◌∷◌ d t) = inl refl
less-total (String.◌∷◌ c s) String.[] = inr (inl refl)
less-total (String.◌∷◌ c s) (String.◌∷◌ d t) = elim (Bool-cases (ltb (code c) (code d))) [
  | inl e ↦ inl (rw e refl)
  | inr e ↦ elim (Bool-cases (ltb (code d) (code c))) [
    | inl f ↦ inr (inl (rw f refl))
    | inr f ↦
        let same : compare (code c) (code d) ≡ Ordering.eq = ground (arith, e, f) in
        by_rest c d s t same (less-total s t)
  ]
]
