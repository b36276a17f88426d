-- ===== src/Skills/Keys.antt =====
-- Versions with distinct primary keys: what is written by id reaches the row that was found.
use groundloom.Base.{
  the_same, String, Bool, true, false, some, List, [], ◌∷◌, ◌==◌, ◌≡◌, refl, arith, inl, inr, any,
  find, All, Bool-cases, eq_iff, eq_refl, sym, ap, subst,
}
use groundloom.Skills.Rows.{SkillStatus, SkillVersion}
use groundloom.Skills.Lifecycle.{set_status}

abbrev pub has_version_id : String → SkillVersion → Bool
has_version_id id v = v.id == id

-- Distinct primary keys.
abbrev pub IsKeyed : List SkillVersion → Type 0
IsKeyed [] = Unit
IsKeyed (v ∷ vs) = (any (has_version_id v.id) vs ≡ false) × IsKeyed vs

set_status-missing :
    (P : SkillVersion → Type 0) (id : String) (status : SkillStatus) (vs : List SkillVersion)
    → any (has_version_id id) vs ≡ false
    → All P vs
    → All P (set_status id status vs)
set_status-missing P id status [] h k = tt
set_status-missing P id status (v ∷ vs) h k = elim (Bool-cases (v.id == id)) [
  | inl e ↦ let no : true ≡ false = rw e at h in absurd (cc no)
  | inr e ↦ rw e (k.0, set_status-missing P id status vs (rw e at h) k.1)
]

found_any :
    (test : SkillVersion → Bool) (vs : List SkillVersion) (v : SkillVersion)
    → find test vs ≡ some v
    → any (has_version_id v.id) vs ≡ true
found_any test [] v h = cc
found_any test (w ∷ ws) v h = elim (Bool-cases (test w)) [
  | inl e ↦
      let same : some w ≡ some v = rw e at h in
      let named : (w.id == v.id) ≡ true = (eq_iff w.id v.id).1 (ap (λ u. u.id) (the_same same)) in
      rw named refl
  | inr e ↦ ground (arith, found_any test ws v (rw e at h))
]

other_id :
    (w v : SkillVersion) (ws : List SkillVersion)
    → any (has_version_id w.id) ws ≡ false
    → any (has_version_id v.id) ws ≡ true
    → (w.id == v.id) ≡ false
other_id w v ws missing there = elim (Bool-cases (w.id == v.id)) [
  | inl e ↦
      let here' = subst (λ i. any (has_version_id i) ws ≡ false) ((eq_iff w.id v.id).0 e) missing in
      absurd (cc (here', there))
  | inr e ↦ e
]

-- With distinct keys, a status is written to the row that was found.
pub set_status-All :
    (P : SkillVersion → Type 0) (status : SkillStatus) (test : SkillVersion → Bool)
    (vs : List SkillVersion) (v : SkillVersion)
    → IsKeyed vs
    → find test vs ≡ some v
    → P (record v { status = status })
    → All P vs
    → All P (set_status v.id status vs)
set_status-All P status test [] v keyed h p k = tt
set_status-All P status test (w ∷ ws) v keyed h p k = elim (Bool-cases (test w)) [
  | inl e ↦
      let at_head : some w ≡ some v = rw e at h in
      let same = the_same at_head in
      subst (λ u. All P (set_status u.id status (w ∷ ws))) same
        (rw (eq_refl w.id) (
          subst (λ u. P (record u { status = status })) (sym same) p,
          set_status-missing P w.id status ws keyed.0 k.1,
        ))
  | inr e ↦
      let rest = rw e at h in
      rw (other_id w v ws keyed.0 (found_any test ws v rest))
        (k.0, set_status-All P status test ws v keyed.1 rest p k.1)
]

-- With distinct keys, the row that was found is found again by its id, with the status.
pub find-set_status :
    (status : SkillStatus) (test : SkillVersion → Bool) (vs : List SkillVersion) (v : SkillVersion)
    → IsKeyed vs
    → find test vs ≡ some v
    → find (has_version_id v.id) (set_status v.id status vs) ≡ some (record v { status = status })
find-set_status status test [] v keyed h = cc
find-set_status status test (w ∷ ws) v keyed h = elim (Bool-cases (test w)) [
  | inl e ↦
      let at_head : some w ≡ some v = rw e at h in
      subst
        (λ u.
          find (has_version_id u.id) (set_status u.id status (w ∷ ws))
          ≡ some (record u { status = status }))
        (the_same at_head) (rw (eq_refl w.id) (rw (eq_refl w.id) refl))
  | inr e ↦
      let rest = rw e at h in
      let other = other_id w v ws keyed.0 (found_any test ws v rest) in
      rw other (rw other (find-set_status status test ws v keyed.1 rest))
]
