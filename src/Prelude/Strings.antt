-- ===== src/Prelude/Strings.antt =====
-- Strings, of which `++` is the operator that lists take.
use Prim.Native.String.{String, ◌++◌}

abbrev pub concat : String → String → String
concat s t = s ++ t
