-- ===== src/Tokens.antt =====
-- backend/app/auth.py: signed context tokens, and download tokens for one export artifact. The digest,
-- the JSON text of a payload and base64 are parameters; a payload is what the verifiers read of it.
pub mod RoundTrip
pub mod Signatures
mod Tests
use Prim.Native.Char.{code}
use Prim.Native.Nat.{◌%◌}
use groundloom.Base.{
  and_then, ℕ, zero, suc, ◌+◌, ◌-◌, max, String, Bool, true, false, Option, none, some, ◌==◌, ◌&&◌,
  ◌||◌, not, ltb, nat_eq, text_len, if◌then◌else◌,
}
use groundloom.Encoded.{strip_padding, padding, missing, join, split_first}
use groundloom.Store.{Result, ok, err, error, unauthenticated, or_raise}

-- A payload: its keys as text, and `exp` as a number, where they are there.
pub record Payload : Type 0 where
  pub kind : Option String
  pub sub : Option String
  pub workspace_id : Option String
  pub artifact_id : Option String
  pub exp : Option ℕ

pub record Codec : Type 0 where
  pub hmac_sha256 : String → String → String
  pub dumps : Payload → String
  pub loads : String → Option Payload
  pub b64encode : String → String
  pub b64decode : String → Option String

-- `token.split(".", 1)` into two parts, which fails without a dot.
unfoldable pub split_dot : String → Option (String × String)
split_dot s = split_first 46 s

-- `value.removeprefix(prefix)`, if the text starts with it.
unfoldable pub after_prefix : String → String → Option String
after_prefix String.[] s = some s
after_prefix (String.◌∷◌ c p) String.[] = none
after_prefix (String.◌∷◌ c p) (String.◌∷◌ d s) =
    let rest = after_prefix p s in if nat_eq (code c) (code d) then rest else none

abbrev pub checked : {A : Type 0} → Bool → A → Option A
checked test a = if test then some a else none

-- A text that is there and not empty.
abbrev pub given : Option String → Option String
given none = none
given (some s) = if s == "" then none else some s

module _ (codec : Codec) where
  open codec use {hmac_sha256, dumps, loads, b64encode, b64decode}

  -- `_encode`
  unfoldable pub encode : String → String
  encode value = strip_padding (b64encode value)

  -- `_decode`
  unfoldable pub decode : String → Option String
  decode value = b64decode (join value (padding (missing value)))

  -- The encoded payload, a dot and its signature.
  unfoldable pub sign : String → Payload → String
  unfolding encode
  sign secret payload =
      let encoded = encode (dumps payload) in
      join encoded (String.◌∷◌ "." (encode (hmac_sha256 secret encoded)))

  abbrev pub context_payload : String → String → ℕ → ℕ → Payload
  context_payload user_id workspace_id now lifetime = record {
    kind = none;
    sub = some user_id;
    workspace_id = some workspace_id;
    artifact_id = none;
    exp = some (now + max 1 lifetime);
  }

  unfoldable pub issue_context_token : String → String → String → ℕ → ℕ → String
  unfolding sign
  issue_context_token user_id workspace_id secret lifetime now =
      sign secret (context_payload user_id workspace_id now lifetime)

  -- The payload of a token, if its signature is right.
  unfoldable pub signed : String → String → Option Payload
  unfolding encode decode
  signed secret token = and_then (split_dot token) (λ parts.
      and_then (checked (parts.1 == encode (hmac_sha256 secret parts.0)) parts.0)
        (λ encoded. and_then (decode encoded) loads))

  -- Whom a payload names, if it has not expired.
  unfoldable pub identity : ℕ → Payload → Option (String × String)
  identity now p = and_then p.sub (λ user. and_then p.workspace_id (λ workspace.
      and_then p.exp (λ exp. and_then (checked (not (ltb exp now)) user) (λ _.
        and_then (given (some user)) (λ u. and_then (given (some workspace)) (λ w. some (u, w)))))))

  unfoldable pub read_context : ℕ → Option String → Option String → Option (String × String)
  unfolding signed identity
  read_context now authorization secret = and_then (given authorization) (λ header.
      and_then (after_prefix "Bearer " header)
        (λ token. and_then (given secret) (λ key. and_then (signed key token) (identity now))))

  unfoldable pub verify_context_token : ℕ → Option String → Option String → Result (String × String)
  unfolding read_context
  verify_context_token now authorization secret =
      or_raise (read_context now authorization secret) (error unauthenticated 401)

  abbrev pub download_payload : String → String → String → ℕ → ℕ → Payload
  download_payload user_id workspace_id artifact_id now lifetime = record {
    kind = some "artifact-download";
    sub = some user_id;
    workspace_id = some workspace_id;
    artifact_id = some artifact_id;
    exp = some (now + max 1 lifetime);
  }

  unfoldable pub issue_download_token : String → String → String → String → ℕ → ℕ → String
  unfolding sign
  issue_download_token user_id workspace_id artifact_id secret lifetime now =
      sign secret (download_payload user_id workspace_id artifact_id now lifetime)

  abbrev pub is_given_as : String → Option String → Bool
  is_given_as s none = false
  is_given_as s (some t) = t == s

  unfoldable pub read_download :
      ℕ → Option String → Option String → String → Option (String × String)
  unfolding signed identity
  read_download now token secret artifact_id = and_then (given token) (λ t.
      and_then (given secret) (λ key. and_then (signed key t) (λ p.
        and_then
          (checked (is_given_as "artifact-download" p.kind && is_given_as artifact_id p.artifact_id)
            p)
          (identity now))))

  unfoldable pub verify_download_token :
      ℕ → Option String → Option String → String → Result (String × String)
  unfolding read_download
  verify_download_token now token secret artifact_id =
      or_raise (read_download now token secret artifact_id) (error unauthenticated 401)
