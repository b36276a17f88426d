-- ===== src/Tokens/Signatures.antt =====
-- What the check of a context token demands.
use groundloom.Base.{
  and_then, the_same, Bool-cases, inl, inr, ℕ, String, Option, none, some, ◌==◌, ◌≡◌, refl, eq_iff,
  subst, sym, ◌∙◌, ap,
}
use groundloom.Store.{ok, or_raise-eq-ok}
use groundloom.Tokens.{
  Payload, Codec, split_dot, after_prefix, checked, given, encode, decode, signed, identity,
  read_context, verify_context_token,
}

and_then-eq-some :
    {A B : Type 0} (o : Option A) (f : A → Option B) {b : B}
    → and_then o f ≡ some b
    → (a : A) × (o ≡ some a) × (f a ≡ some b)
and_then-eq-some none f h = cc
and_then-eq-some (some a) f h = (a, refl, h)

given-eq-some : (o : Option String) {s : String} → given o ≡ some s → o ≡ some s
given-eq-some none h = cc
given-eq-some (some t) h = elim (Bool-cases (t == "")) [
  | inl e ↦ let no : none ≡ some _ = rw e at h in absurd (cc no)
  | inr e ↦ rw e at h
]

-- A token whose second part is the signature of its first under the secret.
abbrev pub IsSignedBy : Codec → String → String → Payload → Type 0
IsSignedBy codec secret token p =
    (encoded : String) × (split_dot token
      ≡ some (encoded, encode codec (codec.hmac_sha256 secret encoded)))
    × (and_then (decode codec encoded) codec.loads ≡ some p)

compared-IsSignedBy :
    (codec : Codec) (secret token encoded mac : String) {p : Payload}
    → split_dot token ≡ some (encoded, mac)
    → and_then
        (checked (mac == encode codec (codec.hmac_sha256 secret encoded)) encoded)
        (λ e. and_then (decode codec e) codec.loads)
      ≡ some p
    → IsSignedBy codec secret token p
compared-IsSignedBy codec secret token encoded mac h k =
    let expected = encode codec (codec.hmac_sha256 secret encoded) in
    elim (Bool-cases (mac == expected)) [
      | inl e ↦ (encoded, h ∙ ap (λ m. some (encoded, m)) ((eq_iff mac expected).0 e), rw e at k)
      | inr e ↦ let no : none ≡ some _ = rw e at k in absurd (cc no)
    ]

signed-IsSignedBy :
    (codec : Codec) (secret token : String) {p : Payload}
    → signed codec secret token ≡ some p
    → IsSignedBy codec secret token p
unfolding signed
signed-IsSignedBy codec secret token h =
    let parts = and_then-eq-some (split_dot token) _ h in
    compared-IsSignedBy codec secret token parts.0.0 parts.0.1 parts.1 parts.2

-- No identity without the secret: if a context token is accepted, the header is "Bearer " and a token
-- whose signature is the digest of its first part under the secret, and that part is a payload that
-- names the user and the workspace that are returned.
pub verify_context_token-IsSignedBy :
    (codec : Codec) (now : ℕ) (header secret : String) (who : String × String)
    → verify_context_token codec now (some header) (some secret) ≡ ok who
    → (token : String) × (p : Payload) × (after_prefix "Bearer " header ≡ some token)
      × IsSignedBy codec secret token p
      × (identity codec now p ≡ some who)
unfolding verify_context_token read_context
verify_context_token-IsSignedBy codec now header secret who h =
    let read = or_raise-eq-ok (read_context codec now (some header) (some secret)) _ h in
    let header' = and_then-eq-some (given (some header)) _ read in
    let token = and_then-eq-some (after_prefix "Bearer " header'.0) _ header'.2 in
    let key = and_then-eq-some (given (some secret)) _ token.2 in
    let payload = and_then-eq-some (signed codec key.0 token.0) _ key.2 in
    let same_header = given-eq-some (some header) header'.1 in
    let same_key = given-eq-some (some secret) key.1 in
    (
      token.0,
      payload.0,
      ap (after_prefix "Bearer ") (the_same same_header) ∙ token.1,
      subst (λ k. IsSignedBy codec k token.0 payload.0) (sym (the_same same_key))
          (signed-IsSignedBy codec key.0 token.0 payload.1),
      payload.2,
    )
