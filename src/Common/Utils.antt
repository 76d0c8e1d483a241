-- ===== src/Common/Utils.antt =====
-- apps/common/utils.py, and the slices and splits of texts that the code uses.
use saas_backend_api.Prelude.{
  true, ℕ, zero, suc, String, Bool, Option, none, some, ◌==◌, if◌then◌else◌, str_eq,
}
use Prim.Native.Char.{code}
use saas_backend_api.Store.{Env, Action, ◌>>=◌, pure, draw}

-- `s[:n]`
unfoldable pub take_text : ℕ → String → String
take_text zero s = ""
take_text (suc n) String.[] = ""
take_text (suc n) (String.◌∷◌ c s) = String.◌∷◌ c (take_text n s)

-- `s.split(",")[0]`
unfoldable pub before_comma : String → String
before_comma String.[] = ""
before_comma (String.◌∷◌ c s) =
    let rest = before_comma s in if code c == b',' then "" else String.◌∷◌ c rest

-- The number of characters, `len(s)`.
unfoldable pub text_length : String → ℕ
text_length String.[] = 0
text_length (String.◌∷◌ c s) = suc (text_length s)

-- `generate_secure_token`
unfoldable pub generate_secure_token : Env → Action String
generate_secure_token e = do pure (e.token_urlsafe (← draw))

-- `hash_token`
abbrev pub hash_token : Env → String → String
hash_token e token = e.sha256 token

-- `constant_time_compare`, which compares the UTF-8 bytes of two texts.
abbrev pub constant_time_compare : String → String → Bool
constant_time_compare a b = str_eq a b

-- The headers of a request that the code reads.
pub record Meta : Type 0 where
  pub forwarded_for : Option String
  pub remote_addr : Option String
  pub user_agent : Option String
  pub request_id : Option String

-- `META.get(name, "")`
abbrev pub or_empty : Option String → String
or_empty none = ""
or_empty (some s) = s

-- `client_ip`
unfoldable pub client_ip : Env → Meta → String
client_ip e meta = elim meta.forwarded_for [
  | none ↦ or_empty meta.remote_addr
  | some xff ↦ if str_eq xff "" then or_empty meta.remote_addr else e.strip (before_comma xff)
]

-- What a `GenericIPAddressField` takes.
abbrev pub is_address : Env → Option String → Bool
is_address e none = true
is_address e (some s) = e.is_inet s

-- `text or None`
abbrev pub non_empty : String → Option String
non_empty s = if str_eq s "" then none else some s
