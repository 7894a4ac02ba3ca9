-- ===== src/Severity/Tests.antt =====
-- Regradings as they are written on a command line.
use oaverify.Common.{
  ◌≡◌, refl, List, [], ◌∷◌, Text, codes, text_eq, includes, index_of, find_at, starts_with, split,
  is_space, trim_left, trim_right,
}
use oaverify.Severity
use oaverify.Severity.{
  CheckSeverity, warning, error, fatal, SeverityMap, parsed, refused, not_key, not_remappable,
  not_severity, parse_severity_map, severity_for, default_severity_for,
}
use oaverify.Severity.Codes.{check_codes, families_of, check_families}
use oaverify.Severity.Fixed.{parse_severity_map-malformed}

-- What the runs unfold.
grading : Unit {0}
unfolding text_eq includes index_of find_at starts_with split is_space trim_left trim_right
    check_codes families_of check_families Severity.ends_with Severity.parse_finding_key
    Severity.get Severity.set Severity.assign Severity.read_entry Severity.read_entries
    Severity.split_all parse_severity_map severity_for default_severity_for
grading = tt

abbrev regrading : SeverityMap
regrading = record {
  by_code = (codes "unsatisfiable/pattern-length", warning) ∷ [];
  by_family = (codes "unsatisfiable", error) ∷ [];
  by_class = (codes "redos", fatal) ∷ [];
}

abbrev written : List Text
written =
    codes "unsatisfiable/*=error, redos = fatal" ∷ codes "unsatisfiable/pattern-length=warning" ∷ []

parsed_run : parse_severity_map written ≡ parsed regrading
unfolding grading
parsed_run = refl

refused_run :
    (parse_severity_map (codes "redoss=error" ∷ []) ≡ refused (not_key (codes "redoss=error")))
    × (parse_severity_map (codes "malformed=error" ∷ [])
        ≡ refused (not_remappable (codes "malformed=error")))
    × (parse_severity_map (codes "redos=" ∷ []) ≡ refused (not_severity (codes "redos=")))
unfolding grading
refused_run = (refl, refl, refl)

graded_run :
    (severity_for regrading (codes "schema") (codes "unsatisfiable/pattern-length") fatal ≡ warning)
    × (severity_for regrading (codes "schema") (codes "unsatisfiable/enum-member-type") warning
        ≡ error)
    × (severity_for regrading (codes "redos") (codes "ambiguous-pattern") warning ≡ fatal)
    × (default_severity_for (codes "hygiene") (codes "route-conflict") ≡ error)
    × (default_severity_for (codes "hygiene") (codes "unused-tag") ≡ warning)
unfolding grading
graded_run = (refl, refl, refl, refl, refl)

parse_severity_map-malformed_example :
    severity_for regrading (codes "malformed") (codes "malformed-schema") fatal ≡ fatal
parse_severity_map-malformed_example =
    parse_severity_map-malformed written regrading fatal parsed_run
