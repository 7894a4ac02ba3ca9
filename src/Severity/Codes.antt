-- ===== src/Severity/Codes.antt =====
-- packages/check/src/codes.ts: every code that a check can emit, by class.
use oaverify.Common.{ℕ, List, [], ◌∷◌, ◌++◌, Text, codes, Option, none, some, index_of, slice}

-- `SCHEMA_CODES`
abbrev pub schema_codes : List Text
schema_codes =
    codes "partial-feature"
    ∷ codes "unknown-keyword"
    ∷ codes "annotation-value-type"
    ∷ codes "silent-rewrite/ref-siblings-oas30"
    ∷ codes "silent-rewrite/required-not-in-properties"
    ∷ codes "silent-rewrite/redundant-composition-branches"
    ∷ codes "silent-rewrite/discriminator-unroutable"
    ∷ codes "silent-rewrite/pattern-not-unicode-mode"
    ∷ codes "unsatisfiable/pattern-length"
    ∷ codes "unsatisfiable/enum-member-type"
    ∷ codes "unsatisfiable/composed-properties"
    ∷ codes "unsatisfiable/composed-enum-empty"
    ∷ codes "unsatisfiable/composed-enum-members"
    ∷ []

-- `HYGIENE_CODES`
abbrev pub hygiene_codes : List Text
hygiene_codes =
    codes "unused-component"
    ∷ codes "unused-tag"
    ∷ codes "unreachable-defs"
    ∷ codes "path-param-undeclared"
    ∷ codes "path-param-unused"
    ∷ codes "path-template-malformed"
    ∷ codes "duplicate-parameter"
    ∷ codes "duplicate-operation-id"
    ∷ codes "security-scheme-undeclared"
    ∷ codes "server-variable-undeclared"
    ∷ codes "server-variable-default-not-in-enum"
    ∷ codes "server-variable-default-not-in-enum-oas30"
    ∷ []

-- `CONFORMANCE_CODES`
abbrev pub conformance_codes : List Text
conformance_codes =
    codes "false"
    ∷ codes "type"
    ∷ codes "const"
    ∷ codes "enum"
    ∷ codes "minimum"
    ∷ codes "maximum"
    ∷ codes "exclusiveMinimum"
    ∷ codes "exclusiveMaximum"
    ∷ codes "multipleOf"
    ∷ codes "minLength"
    ∷ codes "maxLength"
    ∷ codes "pattern"
    ∷ codes "format"
    ∷ codes "minItems"
    ∷ codes "maxItems"
    ∷ codes "uniqueItems"
    ∷ codes "minProperties"
    ∷ codes "maxProperties"
    ∷ codes "required"
    ∷ codes "items"
    ∷ codes "contains"
    ∷ codes "maxContains"
    ∷ codes "additionalProperties"
    ∷ codes "unevaluatedProperties"
    ∷ codes "unevaluatedItems"
    ∷ codes "not"
    ∷ codes "allOf"
    ∷ codes "anyOf"
    ∷ codes "oneOf"
    ∷ codes "schema"
    ∷ codes "discriminator"
    ∷ codes "dependentRequired"
    ∷ codes "dependencies"
    ∷ codes "depth"
    ∷ []

-- `EXAMPLES_CODES`
abbrev pub examples_codes : List Text
examples_codes = codes "example-invalid" ∷ codes "example-uncheckable" ∷ []

-- `REDOS_CODES`
abbrev pub redos_codes : List Text
redos_codes = codes "ambiguous-pattern" ∷ []

-- `MALFORMED_CODES`
abbrev pub malformed_codes : List Text
malformed_codes = codes "malformed-schema" ∷ []

-- `CHECK_SCHEMA_CODES`
abbrev pub check_schema_codes : List Text
check_schema_codes = codes "format-not-validated" ∷ codes "unsupported-schema-dialect" ∷ []

-- `CHECK_HYGIENE_CODES`
abbrev pub check_hygiene_codes : List Text
check_hygiene_codes =
    codes "route-conflict"
    ∷ codes "unserved-parameter-location"
    ∷ codes "unsupported-openapi-version"
    ∷ codes "ignored-header"
    ∷ []

-- `CHECK_CODES`: the codes by class, flattened in the order of the classes.
unfoldable pub check_codes : List Text
check_codes =
    hygiene_codes
    ++ (check_hygiene_codes
        ++ (schema_codes
            ++ (check_schema_codes
                ++ (conformance_codes ++ (examples_codes ++ (redos_codes ++ malformed_codes))))))

abbrev pub before_slash : Text → Option ℕ → List Text
before_slash code none = []
before_slash code (some slash) = slice code 0 slash ∷ []

unfoldable pub families_of : List Text → List Text
unfolding index_of
families_of [] = []
families_of (code ∷ more) = before_slash code (index_of code (codes "/") 0) ++ families_of more

-- `CHECK_FAMILIES`
unfoldable pub check_families : List Text
unfolding check_codes families_of
check_families = families_of check_codes

-- `CHECK_CLASSES` (packages/check/src/finding.ts)
abbrev pub check_classes : List Text
check_classes =
    codes "hygiene" ∷ codes "schema" ∷ codes "conformance" ∷ codes "examples" ∷ codes "redos" ∷ []

-- `HYGIENE_ERRORS` (packages/check/src/severity.ts)
abbrev pub hygiene_errors : List Text
hygiene_errors =
    codes "route-conflict"
    ∷ codes "path-param-undeclared"
    ∷ codes "path-param-unused"
    ∷ codes "path-template-malformed"
    ∷ codes "duplicate-parameter"
    ∷ codes "duplicate-operation-id"
    ∷ codes "security-scheme-undeclared"
    ∷ codes "server-variable-undeclared"
    ∷ codes "server-variable-default-not-in-enum"
    ∷ []
