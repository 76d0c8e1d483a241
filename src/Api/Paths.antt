-- ===== src/Api/Paths.antt =====
-- The texts of the API's URLs: what `reverse` of the framework writes is what the routes read.
use Prim.Native.Char.{code}
use Prim.Native.String.{◌++◌}
use mathlib.Core.List.{Memᴰ}
use text.Mathlib.TextLemmas.{nil-append, cons-append}
use saas_backend_api.Prelude.{
  ℕ, ◌==◌, String, Bool, true, false, Option, some, List, [], ◌∷◌, ◌≡◌, refl, ap, ◌∙◌, inl, inr,
  Bool-cases, Option-cases, none, sym, arith, ◌&&◌, if◌then◌else◌,
}
use saas_backend_api.Api.Routes.{
  api_v1_patterns, include, Segment, lit, uuid, Route, urlpatterns, cut, segments, resolve_path,
}
use saas_backend_api.Api.Resolution.{fill, resolve-first, urlpatterns_distinct}

-- No slash stands in the text.
unfoldable pub is_plain : String → Bool
is_plain String.[] = true
is_plain (String.◌∷◌ c s) = if code c == b'/' then false else is_plain s

unfoldable pub all_plain : List String → Bool
all_plain [] = true
all_plain (t ∷ ts) = is_plain t && all_plain ts

-- Each segment and its slash.
unfoldable pub joined : List String → String
joined [] = ""
joined (t ∷ ts) = t ++ ("/" ++ joined ts)

-- `reverse`, of a path of these segments.
abbrev pub path_text : List String → String
path_text ts = "/" ++ joined ts

slash-append : (s : String) → "/" ++ s ≡ String.◌∷◌ "/" s
slash-append s = cons-append "/" "" s ∙ ap (String.◌∷◌ "/") (nil-append s)

cut-slash : (s : String) → cut ("/" ++ s) ≡ ("" ∷ (cut s).0, (cut s).1)
unfolding cut
cut-slash s = rw (slash-append s) refl

cut-plain : (t s : String) → is_plain t ≡ true → cut (t ++ ("/" ++ s)) ≡ (t ∷ (cut s).0, (cut s).1)
unfolding cut is_plain
cut-plain String.[] s h = rw (nil-append ("/" ++ s)) (cut-slash s)
cut-plain (String.◌∷◌ c t) s h = elim (Bool-cases (code c == b'/')) [
  | inl slash ↦ absurd (ground (arith, slash))
  | inr other ↦
      rw (cons-append c t ("/" ++ s)) (rw (cut-plain t s (ground (arith, other))) (rw other refl))
]

cut-joined : (ts : List String) → all_plain ts ≡ true → cut (joined ts) ≡ (ts, "")
unfolding cut joined all_plain
cut-joined [] h = refl
cut-joined (t ∷ ts) h =
    cut-plain t (joined ts) (ground arith) ∙ rw (cut-joined ts (ground arith)) refl

segments-path_text : (ts : List String) → all_plain ts ≡ true → segments (path_text ts) ≡ some ts
unfolding segments
segments-path_text ts h = rw (slash-append (joined ts)) (rw (cut-joined ts h) refl)

abbrev is_plain_segment : Segment → Bool
is_plain_segment (lit s) = is_plain s
is_plain_segment uuid = true

unfoldable pub is_plain_pattern : List Segment → Bool
is_plain_pattern [] = true
is_plain_pattern (p ∷ ps) = is_plain_segment p && is_plain_pattern ps

unfoldable pub are_plain : List Route → Bool
are_plain [] = true
are_plain (r ∷ rs) = is_plain_pattern r.pattern && are_plain rs

urlpatterns_plain : are_plain urlpatterns ≡ true
unfolding are_plain is_plain_pattern is_plain urlpatterns api_v1_patterns include
urlpatterns_plain = refl

are_plain-member :
    (r : Route) (rs : List Route)
    → are_plain rs ≡ true
    → Memᴰ r rs
    → is_plain_pattern r.pattern ≡ true
unfolding are_plain
are_plain-member r [] h m = elim m [ ]
are_plain-member r (q ∷ rs) h (Memᴰ.head same) = rw same (ground arith)
are_plain-member r (q ∷ rs) h (Memᴰ.tail m) = are_plain-member r rs (ground arith) m

abbrev maybe_path : Option (List String) → Option String
maybe_path none = none
maybe_path (some ts) = some (path_text ts)

-- `reverse`, the URL of a route for these UUIDs.
unfoldable pub reverse : (ℕ → String) → Route → List ℕ → Option String
reverse print r ns = maybe_path (fill print r.pattern ns)

module _ (parse : String → Option ℕ) (print : ℕ → String)
    (inverse : (n : ℕ) → parse (print n) ≡ some n)
    (plain : (n : ℕ) → is_plain (print n) ≡ true) where
  fill-plain :
      (ps : List Segment) (ns : List ℕ) (ts : List String)
      → is_plain_pattern ps ≡ true
      → fill print ps ns ≡ some ts
      → all_plain ts ≡ true
  unfolding fill is_plain_pattern all_plain
  fill-plain [] [] ts l h = ground arith
  fill-plain [] (n ∷ ns) ts l h = ground arith
  fill-plain (lit s ∷ ps) ns ts l h = elim (Option-cases (fill print ps ns)) [
    | inl bad ↦ ground (arith, bad)
    | inr (us, good) ↦ ground (arith, good, fill-plain ps ns us)
  ]
  fill-plain (uuid ∷ ps) [] ts l h = ground arith
  fill-plain (uuid ∷ ps) (n ∷ ns) ts l h = elim (Option-cases (fill print ps ns)) [
    | inl bad ↦ ground (arith, bad)
    | inr (us, good) ↦ ground (arith, good, plain n, fill-plain ps ns us)
  ]

  -- Every route can be reached: if what the framework reads as a UUID is inverse to how it writes
  -- one, without a slash, then the URL that is written for a route of the API and its UUIDs leads
  -- to the view of that route, with these UUIDs, and to no other route before it.
  pub resolve_path-reverse :
      (r : Route) (ns : List ℕ) (text : String)
      → Memᴰ r urlpatterns
      → reverse print r ns ≡ some text
      → resolve_path parse urlpatterns text ≡ some (r.view, ns)
  unfolding reverse resolve_path
  resolve_path-reverse r ns text m h = elim (Option-cases (fill print r.pattern ns)) [
    | inl bad ↦ absurd (ground (arith, bad))
    | inr (us, good) ↦
        let is_all_plain =
          fill-plain r.pattern ns us (are_plain-member r urlpatterns urlpatterns_plain m) good in
        let same : path_text us ≡ text = ground (arith, good) in
        rw (sym same) (
          rw (segments-path_text us is_all_plain)
            (resolve-first parse print inverse r urlpatterns ns us urlpatterns_distinct m good))
  ]
