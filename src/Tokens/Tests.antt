-- ===== src/Tokens/Tests.antt =====
-- Tokens of a codec that writes one payload.
use groundloom.Base.{String, some, none, ◌≡◌, refl, arith, ◌≢◌, ap, text_len}
use groundloom.Encoded.{join, padding, strip_padding, split_first}
use groundloom.Encoded.Laws.{IsPadded, has_char}
use groundloom.Store.{ok, err, error, unauthenticated}
use groundloom.Tokens.{
  Payload, Codec, encode, decode, split_dot, after_prefix, issue_context_token,
  issue_download_token, verify_context_token, verify_download_token, signed, identity, read_context,
}
use groundloom.Tokens.RoundTrip.{
  IsFaithful, verify_context_token-issued, verify_context_token-download,
  verify_download_token-issued,
}
use groundloom.Tokens.Signatures.{IsSignedBy, verify_context_token-IsSignedBy}

abbrev ann : Payload
ann = record {
  kind = none;
  sub = some "ann";
  workspace_id = some "w1";
  artifact_id = none;
  exp = some 160;
}

abbrev file : Payload
file = record {
  kind = some "artifact-download";
  sub = some "ann";
  workspace_id = some "w1";
  artifact_id = some "f1";
  exp = some 160;
}

abbrev codec_of : Payload → Codec
codec_of p = record {
  hmac_sha256 = λ key text. join key text;
  dumps = λ q. "{}";
  loads = λ text. some p;
  b64encode = λ text. "e30=";
  b64decode = λ text. some "{}";
}

e30-IsPadded : IsPadded "e30="
unfolding join padding strip_padding text_len
e30-IsPadded = record {
  core = "e30";
  pads = 1;
  whole = refl;
  ends = refl;
  few = omega arith;
  aligned = refl;
}

codec_of-IsFaithful : (p : Payload) → IsFaithful (codec_of p) p
unfolding e30-IsPadded has_char
codec_of-IsFaithful p = record { text = refl; bytes = refl; padded = e30-IsPadded; no_dot = refl }

nonempty : (s : String) → text_len s ≢ 0 → s ≢ ""
unfolding text_len
nonempty s h e = h (ap text_len e)

ann-nonempty : ◌≢◌ {A = String} "ann" ""
unfolding text_len
ann-nonempty = nonempty "ann" (omega arith)

w1-nonempty : ◌≢◌ {A = String} "w1" ""
unfolding text_len
w1-nonempty = nonempty "w1" (omega arith)

key-nonempty : ◌≢◌ {A = String} "key" ""
unfolding text_len
key-nonempty = nonempty "key" (omega arith)

verify_context_token-issued_example :
    verify_context_token
      (codec_of ann)
      130
      (some (join "Bearer " (issue_context_token (codec_of ann) "ann" "w1" "key" 60 100)))
      (some "key")
    ≡ ok ("ann", "w1")
verify_context_token-issued_example =
    verify_context_token-issued (codec_of ann) "ann" "w1" "key" 60 100 130 (codec_of-IsFaithful ann)
      ann-nonempty w1-nonempty key-nonempty

verify_context_token-download_example :
    verify_context_token
      (codec_of file)
      130
      (some (join "Bearer " (issue_download_token (codec_of file) "ann" "w1" "f1" "key" 60 100)))
      (some "key")
    ≡ ok ("ann", "w1")
verify_context_token-download_example =
    verify_context_token-download (codec_of file) "ann" "w1" "f1" "key" 60 100 130
      (codec_of-IsFaithful file) ann-nonempty w1-nonempty key-nonempty

verify_download_token-issued_example :
    verify_download_token
      (codec_of file)
      130
      (some (issue_download_token (codec_of file) "ann" "w1" "f1" "key" 60 100))
      (some "key")
      "f2"
    ≡ err (error unauthenticated 401)
verify_download_token-issued_example =
    verify_download_token-issued (codec_of file) "ann" "w1" "f1" "key" 60 100 130 "f2"
      (codec_of-IsFaithful file) ann-nonempty w1-nonempty key-nonempty

abbrev header : String
header = "Bearer e30.e30"

header-accepted :
    verify_context_token (codec_of ann) 130 (some header) (some "key") ≡ ok ("ann", "w1")
unfolding verify_context_token read_context after_prefix signed split_dot split_first encode decode
    strip_padding identity
header-accepted = refl

verify_context_token-IsSignedBy_example :
    (token : String) × (p : Payload) × (after_prefix "Bearer " header ≡ some token)
    × IsSignedBy (codec_of ann) "key" token p
    × (identity (codec_of ann) 130 p ≡ some ("ann", "w1"))
verify_context_token-IsSignedBy_example =
    verify_context_token-IsSignedBy (codec_of ann) 130 header "key" ("ann", "w1") header-accepted
