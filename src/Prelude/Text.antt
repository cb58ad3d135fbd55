-- ===== src/Prelude/Text.antt =====
-- The empty string, which the code tests with `||`.
use Prim.Native.String.{String}
use text.Mathlib.Text.{◌==◌}
use vedhicfoods.Prelude.{Option, none, some, if◌then◌else◌}

-- `text || null`
abbrev pub or_null : Option String → Option String
or_null none = none
or_null (some text) = if text == "" then none else some text

-- `text || other`
abbrev pub or_else : String → String → String
or_else text other = if text == "" then other else text
