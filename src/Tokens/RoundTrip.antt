-- ===== src/Tokens/RoundTrip.antt =====
-- Tokens that are issued and verified.
use Prim.Native.Char.{code}
use groundloom.Base.{
  and_then, ℕ, ◌+◌, ◌<◌, max, String, Bool, true, false, some, ◌==◌, not, ltb, text_len, ◌≡◌, ◌≢◌,
  refl, arith, inl, inr, if◌then◌else◌, eq_iff, eq_false, Bool-cases, ◌∙◌, ap,
}
use groundloom.Encoded.{join}
use groundloom.Encoded.Laws.{
  has_char, IsPadded, nat_eq_refl, split_first-join, strip_padding-whole, join-missing,
}
use groundloom.Store.{Result, ok, err, error, unauthenticated, or_raise}
use groundloom.Tokens.{
  Payload, Codec, split_dot, after_prefix, checked, given, encode, decode, sign, context_payload,
  issue_context_token, signed, identity, read_context, verify_context_token, download_payload,
  issue_download_token, read_download, verify_download_token,
}

after_prefix-join : (p s : String) → after_prefix p (join p s) ≡ some s
unfolding after_prefix join
after_prefix-join String.[] s = refl
after_prefix-join (String.◌∷◌ c p) s = rw (nat_eq_refl (code c)) (after_prefix-join p s)

-- What the codec promises for one payload: its text is read back, and base64 is.
pub record IsFaithful (codec : Codec) (p : Payload) : Type 0 where
  pub text : codec.loads (codec.dumps p) ≡ some p
  pub bytes : codec.b64decode (codec.b64encode (codec.dumps p)) ≡ some (codec.dumps p)
  pub padded : IsPadded (codec.b64encode (codec.dumps p))
  pub no_dot : has_char 46 padded.core ≡ false

text_eq_refl : (s : String) → (s == s) ≡ true
text_eq_refl s = (eq_iff s s).1 refl

decode-core :
    (codec : Codec) {value encoded : String} (h : IsPadded encoded)
    → codec.b64decode encoded ≡ some value
    → decode codec h.core ≡ some value
unfolding decode
decode-core codec h b = ap codec.b64decode (join-missing h) ∙ b

signed-sign :
    (codec : Codec) (secret : String) (p : Payload)
    → IsFaithful codec p
    → signed codec secret (sign codec secret p) ≡ some p
unfolding signed sign encode split_dot
signed-sign codec secret p h =
    let k = h.padded in
    rw (strip_padding-whole k) (
      rw (split_first-join "." k.core (encode codec (codec.hmac_sha256 secret k.core)) h.no_dot) (
        rw (text_eq_refl (encode codec (codec.hmac_sha256 secret k.core)))
          (rw (decode-core codec k h.bytes) h.text)))

text-nonempty : (s : String) → s ≢ "" → given (some s) ≡ some s
text-nonempty s h = rw (eq_false s "" h) refl

text_len-join : (s t : String) → text_len (join s t) ≡ text_len s + text_len t
unfolding join text_len
text_len-join String.[] t = omega arith
text_len-join (String.◌∷◌ c s) t = ground (arith, text_len-join s t)

join-nonempty : (s t : String) → 0 < text_len s + text_len t → join s t ≢ ""
unfolding text_len
join-nonempty s t h e = let len = ap text_len e in ground (arith, text_len-join s t)

bearer-nonempty : (s : String) → given (some (join "Bearer " s)) ≡ some (join "Bearer " s)
unfolding text_len
bearer-nonempty s = text-nonempty (join "Bearer " s) (join-nonempty "Bearer " s (omega arith))

-- A signed payload is read as what it says, whatever it was issued for.
read_context-sign :
    (codec : Codec) (secret : String) (p : Payload) (now : ℕ)
    → IsFaithful codec p
    → secret ≢ ""
    → read_context codec now (some (join "Bearer " (sign codec secret p))) (some secret)
      ≡ identity codec now p
unfolding read_context
read_context-sign codec secret p now h k = rw (bearer-nonempty (sign codec secret p)) (
    rw (after_prefix-join "Bearer " (sign codec secret p))
      (rw (text-nonempty secret k) (rw (signed-sign codec secret p h) refl)))

abbrev pub until : (expired : Bool) → String → String → Result (String × String)
until expired user workspace =
    if expired then err (error unauthenticated 401) else ok (user, workspace)

named-until :
    (expired : Bool) (user workspace : String)
    → user ≢ ""
    → workspace ≢ ""
    → or_raise
        (and_then (checked (not expired) user) (λ _.
          and_then (given (some user)) (λ u. and_then (given (some workspace)) (λ w. some (u, w)))))
        (error unauthenticated 401)
      ≡ until expired user workspace
named-until true user workspace u w = refl
named-until false user workspace u w =
    rw (text-nonempty user u) (rw (text-nonempty workspace w) refl)

-- A context token is good until it expires: the check of a token that `issue_context_token` gave returns
-- the user and the workspace it was issued for, and fails once it has expired, for texts that are not
-- empty and a codec that reads back the payload it wrote.
pub verify_context_token-issued :
    (codec : Codec) (user workspace secret : String) (lifetime issued now : ℕ)
    → IsFaithful codec (context_payload codec user workspace issued lifetime)
    → user ≢ ""
    → workspace ≢ ""
    → secret ≢ ""
    → verify_context_token codec now
        (some (join "Bearer " (issue_context_token codec user workspace secret lifetime issued)))
        (some secret)
      ≡ until (ltb (issued + max 1 lifetime) now) user workspace
unfolding verify_context_token issue_context_token identity
verify_context_token-issued codec user workspace secret lifetime issued now h u w k =
    let p = context_payload codec user workspace issued lifetime in
    rw (read_context-sign codec secret p now h k)
      (named-until (ltb (issued + max 1 lifetime) now) user workspace u w)

-- A download token is more than a capability for one artifact: until it expires, `verify_context_token`
-- takes it for the whole identity of the user who asked for it, where both have one secret, for texts
-- that are not empty and a codec that reads back the payload it wrote.
pub verify_context_token-download :
    (codec : Codec) (user workspace artifact_id secret : String) (lifetime issued now : ℕ)
    → IsFaithful codec (download_payload codec user workspace artifact_id issued lifetime)
    → user ≢ ""
    → workspace ≢ ""
    → secret ≢ ""
    → verify_context_token codec now
        (some (
          join "Bearer "
            (issue_download_token codec user workspace artifact_id secret lifetime issued)))
        (some secret)
      ≡ until (ltb (issued + max 1 lifetime) now) user workspace
unfolding verify_context_token issue_download_token identity
verify_context_token-download codec user workspace artifact_id secret lifetime issued now h u w k =
    let p = download_payload codec user workspace artifact_id issued lifetime in
    rw (read_context-sign codec secret p now h k)
      (named-until (ltb (issued + max 1 lifetime) now) user workspace u w)

sign-nonempty : (codec : Codec) (secret : String) (p : Payload) → sign codec secret p ≢ ""
unfolding sign text_len
sign-nonempty codec secret p = join-nonempty (encode codec (codec.dumps p)) _ (omega arith)

-- A download token opens the one artifact it was issued for, until it expires, and no other, for texts
-- that are not empty and a codec that reads back the payload it wrote.
pub verify_download_token-issued :
    (codec : Codec) (user workspace artifact_id secret : String) (lifetime issued now : ℕ)
    (asked : String)
    → IsFaithful codec (download_payload codec user workspace artifact_id issued lifetime)
    → user ≢ ""
    → workspace ≢ ""
    → secret ≢ ""
    → verify_download_token codec now
        (some (issue_download_token codec user workspace artifact_id secret lifetime issued))
        (some secret)
        asked
      ≡ (if artifact_id == asked
          then until (ltb (issued + max 1 lifetime) now) user workspace
          else err (error unauthenticated 401))
unfolding verify_download_token issue_download_token read_download identity
verify_download_token-issued codec user workspace artifact_id secret lifetime issued now asked h u w
      k =
    let p = download_payload codec user workspace artifact_id issued lifetime in
    rw (text-nonempty (sign codec secret p) (sign-nonempty codec secret p)) (
      rw (text-nonempty secret k) (
        rw (signed-sign codec secret p h) (elim (Bool-cases (artifact_id == asked)) [
          | inl e ↦ rw e (named-until (ltb (issued + max 1 lifetime) now) user workspace u w)
          | inr e ↦ rw e refl
        ])))
