-- ===== src/Security/Decision.antt =====
-- `compileOperationSecurity` and `checkSecurity`: which requests a declared security lets through.
pub mod Laws
pub mod Open
use oaverify.Common.{
  ℕ, Bool, true, false, Option, none, some, List, [], ◌∷◌, ◌++◌, map, any, all, Text, codes, join,
  text_eq, is_some,
}
use oaverify.Security.{
  Request, Scheme, Mode, SchemeCheck, Fallible, returns, throws, map_fallible, Declared, undeclared,
  unreadable, declared, Requirement, requirement, malformed, effective, get_own,
}
use oaverify.Security.Credentials.{compile_scheme_check}

-- The requirements of one operation: each the checks of its schemes.
abbrev pub CompiledSecurity : Type 0
CompiledSecurity = List (List SchemeCheck)

abbrev pub unreadable_security_requirement : List SchemeCheck
unreadable_security_requirement =
    record {
      scheme = codes "security";
      check = λ req. some (codes "is not a list of security requirement objects");
    }
    ∷ []

-- The leaf of a refused request: the reasons that its message joins, one text for each
-- alternative, and the schemes of each.
pub record Failure : Type 0 where
  pub reasons : List Text
  pub declared_schemes : List (List Text)

-- `failures`
unfoldable pub failures_of : List SchemeCheck → Request → List Text
failures_of [] req = []
failures_of (s ∷ schemes) req =
    let more = failures_of schemes req in
    elim (s.check req) [ none ↦ more | some reason ↦ (s.scheme ++ codes ": " ++ reason) ∷ more ]

abbrev pub scheme_names : List SchemeCheck → List Text
scheme_names schemes = map (λ s. s.scheme) schemes

-- The loop of `checkSecurity` behind the alternatives that failed so far.
unfoldable pub check_from :
    CompiledSecurity → Request → List Text → List (List Text) → Option Failure
unfolding failures_of
check_from [] req reasons names = some (record { reasons = reasons; declared_schemes = names })
check_from (alternative ∷ compiled) req reasons names = elim (failures_of alternative req) [
  | [] ↦ none
  | f ∷ fs ↦
      check_from compiled req (reasons ++ join (codes " AND ") (f ∷ fs) ∷ [])
        (names ++ scheme_names alternative ∷ [])
]

unfoldable pub check_security : CompiledSecurity → Request → Option Failure
check_security compiled req = check_from compiled req [] []

-- `lower` and `atob` are the platform's. `resolve_ref` throws on a reference that it cannot follow.
module _ (lower : Text → Text) (atob : Text → Option Text) {Raw : Type 0}
    (resolve_ref : Raw → Fallible (Option Scheme)) where
  -- `resolvedSchemes`: the names of an object are distinct, so that setting each leaves them as they are.
  unfoldable pub resolve_schemes : List (Text × Raw) → Fallible (List (Text × Option Scheme))
  resolve_schemes [] = returns []
  resolve_schemes ((name, raw) ∷ schemes) =
      let rest = resolve_schemes schemes in
      elim (resolve_ref raw) [
        | throws ↦ throws
        | returns scheme ↦ map_fallible (◌∷◌ (name, scheme)) rest
      ]

  -- `getOwn(schemes, name)`
  unfoldable pub scheme_of : List (Text × Option Scheme) → Text → Option Scheme
  unfolding get_own
  scheme_of schemes name = elim (get_own schemes name) [ none ↦ none | some scheme ↦ scheme ]

  unfoldable pub compile_requirement :
      List (Text × Option Scheme) → Mode → Requirement → List SchemeCheck
  compile_requirement schemes mode malformed = unreadable_security_requirement
  compile_requirement schemes mode (requirement names) =
      map (λ name. compile_scheme_check lower atob name (scheme_of schemes name) mode) names

  -- `compileOperationSecurity` on the security in force; a throw of `resolveRef` escapes.
  unfoldable pub compile_effective :
      List (Text × Raw) → Mode → Declared → Fallible (Option CompiledSecurity)
  unfolding resolve_schemes compile_requirement
  compile_effective schemes mode undeclared = returns none
  compile_effective schemes mode unreadable = returns (some (unreadable_security_requirement ∷ []))
  compile_effective schemes mode (declared []) = returns none
  compile_effective schemes mode (declared (r ∷ rs)) =
      map_fallible (λ resolved. some (map (compile_requirement resolved mode) (r ∷ rs)))
        (resolve_schemes schemes)

  unfoldable pub compile_operation_security :
      Declared → Declared → List (Text × Raw) → Mode → Fallible (Option CompiledSecurity)
  unfolding compile_effective
  compile_operation_security operation document schemes mode =
      compile_effective schemes mode (effective operation document)

  -- What a request meets once the operation's security is compiled: the first step of
  -- `validateRequest` behind the routing.
  abbrev pub check_compiled : Request → Option CompiledSecurity → Option Failure
  check_compiled req none = none
  check_compiled req (some compiled) = check_security compiled req

  unfoldable pub security_error :
      Declared → Declared → List (Text × Raw) → Mode → Request → Fallible (Option Failure)
  unfolding compile_operation_security check_security
  security_error operation document schemes mode req =
      map_fallible (check_compiled req) (compile_operation_security operation document schemes mode)
