-- ===== src/Security/Tests.antt =====
-- Requests against a document with three security schemes.
use oaverify.Common.{
  is_space, ◌≡◌, ◌↔◌, refl, false, Option, none, some, List, [], ◌∷◌, Any, Text, codes, includes,
  text_eq, starts_with, lower_unit, to_lower, arith, join,
}
use oaverify.Security
use oaverify.Security.{
  Fallible, returns, throws, one, many, Headers, Request, Scheme, Mode, shape, strict, undeclared,
  unreadable, declared, requirement, malformed, get_own, index, find_lowered, get_header_value,
  get_header_value_fast, effective, is_object_prototype_property_name,
}
use oaverify.Security.QueryKeys
use oaverify.Security.QueryKeys.{
  Declares, query_api_key_names_for_security, query_api_key_names_for_security_iff,
}
use oaverify.Security.Credentials
use oaverify.Security.Credentials.{api_key_reason, compile_scheme_check}
use oaverify.Security.Credentials.OwnKey.{HasKey, api_key_reason-HasKey}
use oaverify.Security.Decision
use oaverify.Security.Decision.{CompiledSecurity, Failure, check_security, security_error}
use oaverify.Security.Decision.Laws.{IsSatisfied, check_security_iff}
use oaverify.Security.Decision.Open.{security_error_strict}

-- What the runs unfold.
checks : Unit {0}
unfolding get_own index find_lowered get_header_value get_header_value_fast effective
    is_object_prototype_property_name lower_unit text_eq starts_with join includes is_space
    Credentials.skip_spaces Credentials.after_scheme Credentials.is_bearer
    Credentials.basic_credential Credentials.first_value Credentials.get_header
    Credentials.read_member Credentials.pick_api_key Credentials.is_missing Credentials.reads_own
    api_key_reason Credentials.api_key_check Credentials.bearer_reason Credentials.basic_reason
    Credentials.unsupported_scheme_check Credentials.is_http_scheme compile_scheme_check
    Decision.failures_of Decision.check_from check_security Decision.resolve_schemes
    Decision.scheme_of Decision.compile_requirement Decision.compile_effective
    Decision.compile_operation_security security_error
checks = tt

-- Stands for `toLowerCase` on texts of ASCII: it is idempotent.
to_lower_twice : (s : Text) → to_lower (to_lower s) ≡ to_lower s
unfolding lower_unit
to_lower_twice [] = refl
to_lower_twice (c ∷ s) =
    let unit : lower_unit (lower_unit c) ≡ lower_unit c = ground arith in
    λ i. unit i ∷ to_lower_twice s i

-- A resolver for a document without references.
abbrev itself : Scheme → Fallible (Option Scheme)
itself scheme = returns (some scheme)

-- One that throws on every reference.
abbrev broken : Scheme → Fallible (Option Scheme)
broken scheme = throws

-- Stands for `atob` on the inputs here: the texts are their own decoding.
abbrev plain : Text → Option Text
plain s = some s

abbrev token : Scheme
token = record { type = codes "http"; scheme = some (codes "Bearer"); name = none; location = none }

abbrev key : Scheme
key = record {
  type = codes "apiKey";
  scheme = none;
  name = some (codes "toString");
  location = some (codes "query");
}

abbrev oauth : Scheme
oauth = record { type = codes "oauth2"; scheme = none; name = none; location = none }

abbrev schemes : List (Text × Scheme)
schemes = (codes "token", token) ∷ (codes "key", key) ∷ (codes "oauth", oauth) ∷ []

abbrev with_token : Request
with_token = record {
  query = some [];
  headers = some (record {
    entries = (codes "Authorization", one (codes "bearer  abc")) ∷ [];
    lowercase_keys = false;
  });
  cookies = none;
  method = codes "GET";
  path = codes "/";
  content_type = none;
  body = none;
  raw_body = none;
}

abbrev with_key : Request
with_key = record {
  query = some ((codes "toString", many (codes "k" ∷ [])) ∷ []);
  headers = none;
  cookies = none;
  method = codes "GET";
  path = codes "/";
  content_type = none;
  body = none;
  raw_body = none;
}

abbrev anonymous : Request
anonymous = record {
  query = some [];
  headers = none;
  cookies = none;
  method = codes "GET";
  path = codes "/";
  content_type = none;
  body = none;
  raw_body = none;
}

abbrev error : Security.Declared → Mode → Request → Fallible (Option Failure)
error security mode req = security_error to_lower plain itself security unreadable schemes mode req

security_run :
    (error (declared (requirement (codes "token" ∷ []) ∷ [])) strict with_token ≡ returns none)
    × (error (declared (requirement (codes "key" ∷ []) ∷ [])) strict with_key ≡ returns none)
    × (error (declared (requirement (codes "oauth" ∷ []) ∷ [])) shape anonymous ≡ returns none)
    × (error (declared []) strict anonymous ≡ returns none)
unfolding checks
security_run = (refl, refl, refl, refl)

abbrev refusal : Failure
refusal = record {
  reasons =
      codes "key: missing query \"toString\""
      ∷ codes "security: is not a list of security requirement objects"
      ∷ [];
  declared_schemes = (codes "key" ∷ []) ∷ (codes "security" ∷ []) ∷ [];
}

-- A scheme that cannot be resolved fails the compilation, wherever the requirement points.
broken_run :
    security_error to_lower plain broken
      (declared (requirement (codes "token" ∷ []) ∷ []))
      unreadable
      schemes
      strict
      with_token
    ≡ throws
unfolding checks
broken_run = refl

refused_run :
    error (declared (requirement (codes "key" ∷ []) ∷ malformed ∷ [])) shape anonymous
    ≡ returns (some refusal)
unfolding checks
refused_run = refl

abbrev compiled : CompiledSecurity
compiled = (compile_scheme_check to_lower plain (codes "key") (some key) strict ∷ []) ∷ []

check_security_iff_example :
    (check_security compiled with_key ≡ none) ↔ Any (IsSatisfied with_key) compiled
check_security_iff_example = check_security_iff compiled with_key

abbrev missing : Failure
missing = record {
  reasons = codes "key: missing query \"toString\"" ∷ [];
  declared_schemes = (codes "key" ∷ []) ∷ [];
}

token_strict :
    error (declared (requirement (codes "token" ∷ []) ∷ [])) strict with_token ≡ returns none
unfolding checks
token_strict = refl

security_error_strict_example :
    error (declared (requirement (codes "token" ∷ []) ∷ [])) shape with_token ≡ returns none
security_error_strict_example =
    security_error_strict to_lower plain itself (declared (requirement (codes "token" ∷ []) ∷ []))
      unreadable schemes with_token token_strict

key_there : api_key_reason to_lower (codes "query") (codes "toString") with_key ≡ none
unfolding checks
key_there = refl

api_key_reason-HasKey_example : HasKey to_lower (codes "query") (codes "toString") with_key
api_key_reason-HasKey_example =
    api_key_reason-HasKey to_lower to_lower_twice (codes "query") (codes "toString") with_key
      key_there

query_keys_run :
    query_api_key_names_for_security
      (λ s. some s)
      undeclared
      (declared (
        malformed
        ∷ requirement (codes "token" ∷ codes "key" ∷ [])
        ∷ requirement (codes "key" ∷ codes "none" ∷ [])
        ∷ []))
      schemes
    ≡ codes "toString" ∷ []
unfolding checks QueryKeys.add_name QueryKeys.query_key QueryKeys.key_of QueryKeys.add_keys
    QueryKeys.collect_keys query_api_key_names_for_security
query_keys_run = refl

query_api_key_names_for_security_iff_example :
    Any
      (λ n. n ≡ codes "toString")
      (query_api_key_names_for_security
        (λ s. some s)
        (declared (requirement (codes "key" ∷ []) ∷ []))
        undeclared
        schemes)
    ↔ Declares
        (λ s. some s)
        schemes
        (codes "toString")
        (effective (declared (requirement (codes "key" ∷ []) ∷ [])) undeclared)
query_api_key_names_for_security_iff_example =
    query_api_key_names_for_security_iff (λ s. some s)
      (declared (requirement (codes "key" ∷ []) ∷ [])) undeclared schemes (codes "toString")
