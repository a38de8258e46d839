-- ===== src/Web/Tests.antt =====
-- A form on another site, and the line of a poll.
use generatorpi.Base.{codes, ◌≡◌, refl, ◌↔◌, inl, inr, true, false, none, some, ◌++◌, arith}
use generatorpi.Web.{Request, csrf_origin_guard, audit_line, expected_origin, show_number}
use generatorpi.Web.Origin.{Page, origin_of, url_of, csrf_origin_guard-exact}
use generatorpi.Web.Audit.{is_routine_http-audit_line}
use generatorpi.Logs.Routine.{is_routine_http}

-- The host of the other site starts with that of the server.
abbrev other_site : Page
other_site = record { scheme = codes "https"; host = codes "pi.evil"; path = codes "form" }

abbrev forged : Request
forged = record {
  method = codes "POST";
  scheme = codes "https";
  host = codes "pi";
  origin = none;
  referer = some (url_of other_site);
}

forged_refused : csrf_origin_guard forged ≡ false
unfolding csrf_origin_guard
forged_refused = refl

csrf_origin_guard-exact_example :
    (csrf_origin_guard forged ≡ true)
    ↔ (origin_of other_site ≡ expected_origin (codes "https") (codes "pi"))
csrf_origin_guard-exact_example =
    csrf_origin_guard-exact other_site forged (ground arith) (ground arith) refl (inr (refl, refl))

shown : show_number 1204 ≡ codes "1204"
unfolding show_number
shown = refl

is_routine_http-audit_line_example :
    is_routine_http (
      codes "[INFO] "
      ++ audit_line (codes "ann") (codes "10.0.0.2") (codes "GET") (codes "/api/state") 304)
    ≡ true
is_routine_http-audit_line_example =
    is_routine_http-audit_line (codes "[INFO] ") (codes "ann") (codes "10.0.0.2") (codes "GET") b'/'
      (codes "api/state") 304 (ground arith) (inl refl) (ground arith) (omega arith) (omega arith)
