-- ===== src/Log.antt =====
-- The log sink (`LogSink` of internal/application/interfaces.go), as the list of its entries.
use o2ul_portal.Common.{String, Bool, true, false, List, [], ◌∷◌, ◌++◌, Error}
use o2ul_portal.Store.{Value}

-- A field holds a value, or the text of an error.
pub data Field : Type 0 where
  value : Value → Field
  failure : Error → Field

pub record LogEntry : Type 0 where
  pub is_error : Bool
  pub name : String
  pub fields : List (String × Field)

abbrev pub Log : Type 0
Log = List LogEntry

-- `logs.Info` and `logs.Error`
abbrev pub info : String → List (String × Field) → Log → Log
info name fields log = log ++ record { is_error = false; name = name; fields = fields } ∷ []

abbrev pub log_error : String → List (String × Field) → Log → Log
log_error name fields log = log ++ record { is_error = true; name = name; fields = fields } ∷ []
