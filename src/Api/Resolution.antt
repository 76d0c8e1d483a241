-- ===== src/Api/Resolution.antt =====
-- Every URL of the API leads to the view of its route.
use mathlib.Core.List.{Memᴰ}
use saas_backend_api.Prelude.{
  ℕ, not, str_eq_self, String, Bool, true, false, Option, none, some, List, [], ◌∷◌, str_eq, ◌≡◌,
  refl, sym, arith, ◌&&◌, ◌||◌, Option-cases, inl, inr,
}
use saas_backend_api.Api.Routes.{
  api_v1_patterns, include, Segment, lit, uuid, Route, urlpatterns, matched, resolve,
}

abbrev with_segment : String → Option (List String) → Option (List String)
with_segment t none = none
with_segment t (some ts) = some (t ∷ ts)

-- The URL of a pattern for the given UUIDs, if there are as many as the pattern has.
unfoldable pub fill : (ℕ → String) → List Segment → List ℕ → Option (List String)
fill print [] [] = some []
fill print [] (n ∷ ns) = none
fill print (lit s ∷ ps) ns = with_segment s (fill print ps ns)
fill print (uuid ∷ ps) [] = none
fill print (uuid ∷ ps) (n ∷ ns) = with_segment (print n) (fill print ps ns)

-- No path matches both: the lengths differ, or somewhere two literals do.
unfoldable pub are_apart : List Segment → List Segment → Bool
are_apart [] [] = false
are_apart [] (q ∷ qs) = true
are_apart (p ∷ ps) [] = true
are_apart (lit s ∷ ps) (lit t ∷ qs) = not (str_eq s t) || are_apart ps qs
are_apart (lit s ∷ ps) (uuid ∷ qs) = are_apart ps qs
are_apart (uuid ∷ ps) (q ∷ qs) = are_apart ps qs

unfoldable pub all_apart : List Segment → List Route → Bool
all_apart p [] = true
all_apart p (r ∷ rs) = are_apart p r.pattern && all_apart p rs

unfoldable pub are_distinct : List Route → Bool
are_distinct [] = true
are_distinct (r ∷ rs) = all_apart r.pattern rs && are_distinct rs

pub urlpatterns_distinct : are_distinct urlpatterns ≡ true
unfolding are_distinct all_apart are_apart urlpatterns api_v1_patterns include
urlpatterns_distinct = refl

module _ (parse : String → Option ℕ) (print : ℕ → String)
    (inverse : (n : ℕ) → parse (print n) ≡ some n) where
  fill-matched :
      (ps : List Segment) (ns : List ℕ) (ts : List String)
      → fill print ps ns ≡ some ts
      → matched parse ps ts ≡ some ns
  unfolding fill matched
  fill-matched [] [] ts h = ground arith
  fill-matched [] (n ∷ ns) ts h = ground arith
  fill-matched (lit s ∷ ps) ns ts h = elim (Option-cases (fill print ps ns)) [
    | inl bad ↦ ground (arith, bad)
    | inr (us, good) ↦ ground (arith, good, str_eq_self s, fill-matched ps ns us good)
  ]
  fill-matched (uuid ∷ ps) [] ts h = ground arith
  fill-matched (uuid ∷ ps) (n ∷ ns) ts h = elim (Option-cases (fill print ps ns)) [
    | inl bad ↦ ground (arith, bad)
    | inr (us, good) ↦ ground (arith, good, inverse n, fill-matched ps ns us good)
  ]

  apart-unmatched :
      (ps qs : List Segment) (ns : List ℕ) (ts : List String)
      → are_apart ps qs ≡ true
      → fill print qs ns ≡ some ts
      → matched parse ps ts ≡ none
  unfolding fill matched are_apart
  apart-unmatched [] [] ns ts a h = ground arith
  apart-unmatched [] (lit t ∷ qs) ns ts a h = elim (Option-cases (fill print qs ns)) [
    | inl bad ↦ ground (arith, bad)
    | inr (us, good) ↦ ground (arith, good)
  ]
  apart-unmatched [] (uuid ∷ qs) [] ts a h = ground arith
  apart-unmatched [] (uuid ∷ qs) (n ∷ ns) ts a h = elim (Option-cases (fill print qs ns)) [
    | inl bad ↦ ground (arith, bad)
    | inr (us, good) ↦ ground (arith, good)
  ]
  apart-unmatched (p ∷ ps) [] [] ts a h = ground arith
  apart-unmatched (p ∷ ps) [] (n ∷ ns) ts a h = ground arith
  apart-unmatched (lit s ∷ ps) (lit t ∷ qs) ns ts a h = elim (Option-cases (fill print qs ns)) [
    | inl bad ↦ ground (arith, bad)
    | inr (us, good) ↦ ground (arith, good, apart-unmatched ps qs ns us)
  ]
  apart-unmatched (lit s ∷ ps) (uuid ∷ qs) [] ts a h = ground arith
  apart-unmatched (lit s ∷ ps) (uuid ∷ qs) (n ∷ ns) ts a h =
      elim (Option-cases (fill print qs ns)) [
        | inl bad ↦ ground (arith, bad)
        | inr (us, good) ↦ ground (arith, good, apart-unmatched ps qs ns us)
      ]
  apart-unmatched (uuid ∷ ps) (lit t ∷ qs) ns ts a h = elim (Option-cases (fill print qs ns)) [
    | inl bad ↦ ground (arith, bad)
    | inr (us, good) ↦ ground (arith, good, apart-unmatched ps qs ns us)
  ]
  apart-unmatched (uuid ∷ ps) (uuid ∷ qs) [] ts a h = ground arith
  apart-unmatched (uuid ∷ ps) (uuid ∷ qs) (n ∷ ns) ts a h = elim (Option-cases (fill print qs ns)) [
    | inl bad ↦ ground (arith, bad)
    | inr (us, good) ↦ ground (arith, good, apart-unmatched ps qs ns us)
  ]

  all_apart-unmatched :
      (p : List Segment) (r : Route) (rs : List Route) (ns : List ℕ) (ts : List String)
      → all_apart p rs ≡ true
      → Memᴰ r rs
      → fill print r.pattern ns ≡ some ts
      → matched parse p ts ≡ none
  unfolding all_apart
  all_apart-unmatched p r [] ns ts a m h = elim m [ ]
  all_apart-unmatched p r (q ∷ rs) ns ts a (Memᴰ.head same) h =
      apart-unmatched p r.pattern ns ts (rw same (ground arith)) h
  all_apart-unmatched p r (q ∷ rs) ns ts a (Memᴰ.tail m) h =
      all_apart-unmatched p r rs ns ts (ground arith) m h

  pub resolve-first :
      (r : Route) (rs : List Route) (ns : List ℕ) (ts : List String)
      → are_distinct rs ≡ true
      → Memᴰ r rs
      → fill print r.pattern ns ≡ some ts
      → resolve parse rs ts ≡ some (r.view, ns)
  unfolding are_distinct resolve
  resolve-first r [] ns ts d m h = elim m [ ]
  resolve-first r (q ∷ rs) ns ts d (Memᴰ.head same) h =
      rw (sym same) (rw (fill-matched r.pattern ns ts h) refl)
  resolve-first r (q ∷ rs) ns ts d (Memᴰ.tail m) h =
      rw (all_apart-unmatched q.pattern r rs ns ts (ground arith) m h)
        (resolve-first r rs ns ts (ground arith) m h)
