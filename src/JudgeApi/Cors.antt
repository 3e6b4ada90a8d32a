-- ===== src/JudgeApi/Cors.antt =====
-- `corsMiddleware` of cmd/judge_api/main.go: the headers that it sets, in order, and whether the
-- request goes on to the handler.
use iicpc_distributed_benchm.Base.{
  ℕ, ◌≡◌, refl, ◌||◌, if◌then◌else◌, List, [], ◌∷◌, ◌++◌, Bool, false, Bool-cases, inl, inr, Option,
  none, some, Text, text, text_eq,
}

-- `_, ok := originSet[origin]`
unfoldable pub member : Text → List Text → Bool
member t [] = false
member t (o ∷ os) = text_eq o t || member t os

abbrev pub allow_origin : Text
allow_origin = text "Access-Control-Allow-Origin"

abbrev pub origin_headers : Option (List Text) → Text → List (Text × Text)
origin_headers none origin = (allow_origin, text "*") ∷ []
origin_headers (some origins) origin =
    if member origin origins then (allow_origin, origin) ∷ (text "Vary", text "Origin") ∷ [] else []

-- The headers, and 204 for an `OPTIONS` request, which goes no further.
pub cors_middleware : Option (List Text) → Text → Text → List (Text × Text) × Option ℕ
cors_middleware origins origin method = (
  origin_headers origins origin
      ++ (text "Access-Control-Allow-Methods", text "GET, POST, DELETE, OPTIONS")
        ∷ (text "Access-Control-Allow-Headers", text "Content-Type")
        ∷ [],
  if text_eq method (text "OPTIONS") then some 204 else none,
)

-- The value of the first header with a name.
unfoldable pub header : Text → List (Text × Text) → Option Text
header name [] = none
header name ((k, v) ∷ hs) = if text_eq k name then some v else header name hs

-- With a set of origins, `corsMiddleware` allows the request's origin if it is in the set, and no
-- origin otherwise; without a set it allows every origin.
pub cors_middleware-header :
    (origins : List Text) (origin method : Text)
    → (header allow_origin (cors_middleware (some origins) origin method).0
        ≡ (if member origin origins then some origin else none))
      × (header allow_origin (cors_middleware none origin method).0 ≡ some (text "*"))
unfolding cors_middleware header text_eq
cors_middleware-header origins origin method = elim (Bool-cases (member origin origins)) [
  | inl known ↦ rw known (refl, refl)
  | inr unknown ↦ rw unknown (refl, refl)
]
