-- ===== src/Routes.antt =====
-- routes/base.py and routes/registry.py: the request, the shared signature check and parsers, and the
-- registry. The HMAC, the JSON parser, `fromisoformat` and `str.lower` are the record `Platform`.
pub mod Registry
pub mod Signature
mod Tests
use Prim.Native.String
use basecradle_router.Base.{
  ℕ, Bool, true, false, not, ◌&&◌, ◌||◌, Option, none, some, String, List, [], ◌∷◌, Dict, ◌==◌, ite,
  if◌then◌else◌, codes, string_discrete,
}
use basecradle_router.Base.Json.{
  Json, null, boolean, integer, other_number, string, array, object, Fields, as_object,
}
use basecradle_router.Base.Result.{Result, ok, err, ◌>>=◌, ◌>>◌, raise_if}

-- What `datetime.fromisoformat` gives: a naive value, or an aware one by its instant.
pub data IsoTime : Type 0 where
  naive : IsoTime
  aware : ℕ → IsoTime

pub record Platform : Type 0 where
  pub lower : String → String
  pub loads : String → Option Json
  pub fromisoformat : List ℕ → Option IsoTime
  pub hmac_sha256_hex : String → String → String

-- The failures of the route layer.
pub data RouteError : Type 0 where
  signature_error payload_error untrusted_sender_error : RouteError

pub record InboundRequest : Type 0 where
  pub headers : Dict String String
  pub body : String

-- `InboundRequest.header`
unfoldable pub find_header : (String → String) → String → Dict String String → Option String
find_header lower target [] = none
find_header lower target ((key, value) ∷ rest) =
    ite (string_discrete (lower key) target) (some value) (find_header lower target rest)

unfoldable pub header : Platform → String → InboundRequest → Option String
unfolding find_header
header p name request = find_header p.lower (p.lower name) request.headers

abbrev pub starts_with : List ℕ → List ℕ → Bool
starts_with [] t = true
starts_with (c ∷ cs) [] = false
starts_with (c ∷ cs) (d ∷ ds) = c == d && starts_with cs ds

abbrev pub hmac_prefix : String
hmac_prefix = "sha256="

-- The header's value against the body and the key.
unfoldable pub check_signature : Platform → String → String → String → Result RouteError Unit
check_signature p key body provided = do
  raise_if (not (starts_with (codes hmac_prefix) (codes provided))) signature_error
  raise_if
      (ite (string_discrete provided (String.◌++◌ hmac_prefix (p.hmac_sha256_hex key body))) false
        true)
      signature_error

unfoldable pub check_header : Platform → String → String → Option String → Result RouteError Unit
unfolding check_signature
check_header p key body none = err signature_error
check_header p key body (some provided) = check_signature p key body provided

-- `verify_hmac_sha256`, with the secret in the clear.
unfoldable pub verify_hmac_sha256 :
    Platform → InboundRequest → Option String → String → Result RouteError Unit
unfolding header check_header
verify_hmac_sha256 p request none name = err signature_error
verify_hmac_sha256 p request (some key) name =
    check_header p key request.body (header p name request)

abbrev pub require_object : Option Json → Result RouteError Fields
require_object none = err payload_error
require_object (some (object fields)) = ok fields
require_object (some _) = err payload_error

-- `parse_json_object`
unfoldable pub parse_json_object : Platform → String → Result RouteError Fields
parse_json_object p body = require_object (p.loads body)

-- A trailing `Z`, spelled as the offset it stands for.
unfoldable pub spell_zulu : List ℕ → List ℕ
spell_zulu [] = []
spell_zulu (c ∷ []) = if c == b'Z' then codes "+00:00" else c ∷ []
spell_zulu (c ∷ d ∷ cs) = c ∷ spell_zulu (d ∷ cs)

abbrev pub aware_only : Option IsoTime → Option ℕ
aware_only (some (aware t)) = some t
aware_only _ = none

unfoldable pub parse_time_text : Platform → List ℕ → Option ℕ
unfolding spell_zulu
parse_time_text p [] = none
parse_time_text p (c ∷ cs) = aware_only (p.fromisoformat (spell_zulu (c ∷ cs)))

unfoldable pub parse_timestamp : Platform → Json → Option ℕ
unfolding parse_time_text
parse_timestamp p (string s) = parse_time_text p (codes s)
parse_timestamp p _ = none
