-- ===== src/Observability/Logger/Tests.antt =====
-- A line of the log whose fields would overwrite the service and hold a control character.
use ai_statement_analyzer.Base.{◌≡◌, refl, List, [], ◌∷◌}
use ai_statement_analyzer.Observability.Logger.{
  create_line, Field, assign_fields, text_value, other_value, assign, sanitize_value,
  sanitize_string,
}
use ai_statement_analyzer.Observability.Logger.Safe.{IsLine, create_line-IsLine}
use ai_statement_analyzer.Base.Text.{codes}

abbrev logged : List Field
logged =
    record { key = "service"; value = text_value (codes "other") }
    ∷ record { key = "event"; value = text_value (97 ∷ 10 ∷ 98 ∷ []) }
    ∷ record { key = "password"; value = text_value (codes "secret") }
    ∷ record { key = "status"; value = other_value }
    ∷ []

line_of :
    create_line (codes "api") [] logged
    ≡ record { key = "event"; value = text_value (codes "ab") }
      ∷ record { key = "timestamp"; value = text_value [] }
      ∷ record { key = "service"; value = text_value (codes "api") }
      ∷ []
unfolding create_line assign_fields assign sanitize_value sanitize_string
line_of = refl

create_line-IsLine_example : IsLine (codes "api") [] (create_line (codes "api") [] logged)
create_line-IsLine_example = create_line-IsLine (codes "api") [] logged
