-- ===== src/Prelude/Texts.antt =====
-- Equality of texts, and their ends.
use Prim.Native.String.{String}
use mathlib.Core.Path.{◌≡◌}
use mathlib.Core.Bool.{Bool, true}
use text.Mathlib.Text.{◌==◌}
use text.Mathlib.TextPositions.{eq_refl}
use saas_backend_api.Prelude.Tests.{if◌then◌else◌}

pub str_eq_self : (s : String) → (s == s) ≡ true
str_eq_self s = eq_refl s

-- `s.endswith(t)`
unfoldable pub ends_with : String → String → Bool
ends_with String.[] t = String.[] == t
ends_with (String.◌∷◌ c s) t = if String.◌∷◌ c s == t then true else ends_with s t
