-- ===== src/Common/Validators.antt =====
-- apps/common/validators.py. A text is walked by its code points.
use saas_backend_api.Prelude.{
  ℕ, String, Bool, not, ◌||◌, ◌&&◌, Option, none, some, leb, ltb, if◌then◌else◌, false, true,
}
use Prim.Native.Char.{code}
use saas_backend_api.Store.{Env}
use saas_backend_api.Common.Utils.{text_length}

-- `re.search` of a class of characters.
unfoldable pub search_class : (ℕ → Bool) → String → Bool
search_class p String.[] = false
search_class p (String.◌∷◌ c s) = if p (code c) then true else search_class p s

-- `[A-Za-z]`
abbrev pub is_letter : ℕ → Bool
is_letter c = leb b'A' c && leb c b'Z' || leb b'a' c && leb c b'z'

-- `[^\w\s]`
abbrev pub is_special : Env → ℕ → Bool
is_special e c = not (e.is_word c || e.is_space c)

-- `validate_strong_password`: the message of the `ValidationError`, or `none`.
unfoldable pub validate_strong_password : Env → String → Option String
validate_strong_password e password =
    if ltb (text_length password) 10
    then some "Password must be at least 10 characters."
    else if not (search_class is_letter password)
    then some "Password must contain a letter."
    else if not (search_class e.is_digit password)
    then some "Password must contain a digit."
    else if not (search_class (is_special e) password)
    then some "Password must contain a special character."
    else none
