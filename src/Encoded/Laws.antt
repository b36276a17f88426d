-- ===== src/Encoded/Laws.antt =====
-- Laws of stripped and restored padding, and of splitting at a separator.
use Prim.Native.Char.{Char, code}
use Prim.Native.Nat.{◌%◌}
use groundloom.Base.{
  ℕ, zero, suc, ◌+◌, ◌-◌, ◌<◌, String, Bool, true, false, Option, none, some, ◌||◌, nat_eq,
  text_len, ◌≡◌, refl, arith, sym, ◌∙◌, ap, subst,
}
use groundloom.Encoded.{strip_padding, padding, missing, join, before, split_first}

pub nat_eq_refl : (n : ℕ) → nat_eq n n ≡ true
nat_eq_refl n = ground arith

unfoldable pub has_char : ℕ → String → Bool
has_char c String.[] = false
has_char c (String.◌∷◌ d s) = nat_eq (code d) c || has_char c s

-- base64 of a text: characters that are none, then at most three times "=", to a multiple of four.
pub record IsPadded (encoded : String) : Type 0 where
  pub core : String
  pub pads : ℕ
  pub whole : encoded ≡ join core (padding pads)
  pub ends : strip_padding core ≡ core
  pub few : pads < 4
  pub aligned : (text_len core + pads) % 4 ≡ 0

strip_padding-padding : (n : ℕ) → strip_padding (padding n) ≡ String.[]
unfolding strip_padding padding
strip_padding-padding zero = refl
strip_padding-padding (suc n) = rw (strip_padding-padding n) refl

strip_padding-join :
    (s t : String) → strip_padding t ≡ String.[] → strip_padding (join s t) ≡ strip_padding s
unfolding strip_padding join
strip_padding-join String.[] t h = h
strip_padding-join (String.◌∷◌ c s) t h = rw (strip_padding-join s t h) refl

first_here :
    (separator c : ℕ) (first t : String) (o : Option (String × String))
    → nat_eq c separator ≡ true
    → before separator c first o t ≡ some ("", t)
first_here separator c first t none h = rw h refl
first_here separator c first t (some (a, b)) h = rw h refl

pub split_first-join :
    (separator : Char) (s t : String)
    → has_char (code separator) s ≡ false
    → split_first (code separator) (join s (String.◌∷◌ separator t)) ≡ some (s, t)
unfolding split_first join has_char
split_first-join separator String.[] t h =
    first_here (code separator) (code separator) (String.◌∷◌ separator "") t
      (split_first (code separator) t) (nat_eq_refl (code separator))
split_first-join separator (String.◌∷◌ c s) t h =
    let first : nat_eq (code c) (code separator) ≡ false = ground arith in
    let rest : has_char (code separator) s ≡ false = ground arith in
    rw (split_first-join separator s t rest) (rw first refl)

missing_pads : (n p : ℕ) → p < 4 → (n + p) % 4 ≡ 0 → (4 - n % 4) % 4 ≡ p
missing_pads n p h k = omega arith

pub strip_padding-whole : {encoded : String} (h : IsPadded encoded) → strip_padding encoded ≡ h.core
strip_padding-whole {encoded = encoded} h =
    subst (λ e. strip_padding e ≡ h.core) (sym h.whole)
      (strip_padding-join h.core (padding h.pads) (strip_padding-padding h.pads) ∙ h.ends)

-- Restored padding makes the text whole again.
pub join-missing :
    {encoded : String} (h : IsPadded encoded) → join h.core (padding (missing h.core)) ≡ encoded
join-missing h =
    ap (λ n. join h.core (padding n)) (missing_pads (text_len h.core) h.pads h.few h.aligned)
    ∙ sym h.whole
