-- ===== src/LeaderboardApi/Proxy.antt =====
-- `/proxy/judge/` of cmd/leaderboard_api/main.go: the requests to the judge API that it passes on, and
-- the headers of its responses, other than 101 and without trailers. Header names are in their canonical form, as net/http
-- keeps them. The reverse proxy of package httputil takes the hop-by-hop headers away, those that the
-- header Connection names (`named`) and those of its own list, and adds the others of the backend's
-- response to those that are set.
pub mod Shielded
use iicpc_distributed_benchm.Base.{
  ℕ, ◌≡◌, ◌≢◌, refl, sym, ap, ◌∙◌, ◌==◌, if◌then◌else◌, List, [], ◌∷◌, ◌++◌, append-nil, Bool-cases,
  true, false, inl, inr, Option, none, some, Text, text, text_eq, text_eq_iff, ne→text_eq, All,
  arith,
}
use iicpc_distributed_benchm.JudgeApi.Cors.{allow_origin, member}
use iicpc_distributed_benchm.LeaderboardApi.Parameters.{set_cors}

-- What the judge API answers, or the error of the round trip.
pub data Backend : Type 0 where
  unreachable : (error : Text) → Backend
  replied : (code : ℕ) (headers : List (Text × Text)) (body : Text) → Backend

pub record Proxied : Type 0 where
  pub code : ℕ
  pub headers : List (Text × Text)
  pub body : Text

-- `Header.Del`
unfoldable pub del : Text → List (Text × Text) → List (Text × Text)
del name [] = []
del name ((k, v) ∷ hs) = let rest = del name hs in if text_eq k name then rest else (k, v) ∷ rest

abbrev pub allow_methods : Text
allow_methods = text "Access-Control-Allow-Methods"

abbrev pub allow_headers : Text
allow_headers = text "Access-Control-Allow-Headers"

abbrev pub allow_credentials : Text
allow_credentials = text "Access-Control-Allow-Credentials"

-- `Header.Del` of each name.
abbrev pub del_all : List Text → List (Text × Text) → List (Text × Text)
del_all [] hs = hs
del_all (name ∷ names) hs = del_all names (del name hs)

-- `hopHeaders` of package httputil.
abbrev pub hop_headers : List Text
hop_headers =
    text "Connection"
    ∷ text "Proxy-Connection"
    ∷ text "Keep-Alive"
    ∷ text "Proxy-Authenticate"
    ∷ text "Proxy-Authorization"
    ∷ text "Te"
    ∷ text "Trailer"
    ∷ text "Transfer-Encoding"
    ∷ text "Upgrade"
    ∷ []

-- `ModifyResponse`
abbrev pub modify_response : List (Text × Text) → List (Text × Text)
modify_response hs =
    del allow_credentials (del allow_headers (del allow_methods (del allow_origin hs)))

-- `StripPrefix`: none where the path does not have the prefix.
unfoldable pub strip_prefix : Text → Text → Option Text
strip_prefix [] path = some path
strip_prefix (c ∷ prefix) [] = none
strip_prefix (c ∷ prefix) (d ∷ path) =
    let rest = strip_prefix prefix path in if c == d then rest else none

module _ (origins : Option (List Text)) (json_error : Text → Text)
    (named : List (Text × Text) → List Text) where
  -- `ServeHTTP`, with the error handler; `json_error` is the body of `jsonErr`.
  abbrev pub serve : Text → Backend → Proxied
  serve origin (unreachable e) = record {
    code = 502;
    headers = set_cors origins origin ++ (text "Content-Type", text "application/json") ∷ [];
    body = json_error (text "judge-api unreachable: " ++ e);
  }
  serve origin (replied code headers body) = record {
    code = code;
    headers =
        set_cors origins origin
        ++ modify_response (del_all hop_headers (del_all (named headers) headers));
    body = body;
  }

  -- What remains of the path goes to the backend.
  abbrev pub forward : Text → Text → (Text → Text → Backend) → Option Text → Proxied
  forward method origin backend none = record {
    code = 404;
    headers = [];
    body = text "404 page not found";
  }
  forward method origin backend (some rest) =
      if text_eq method (text "OPTIONS")
      then record { code = 204; headers = set_cors origins origin; body = [] }
      else serve origin (backend method rest)

  unfoldable pub proxy : Text → Text → Text → (Text → Text → Backend) → Proxied
  proxy method origin path backend =
      forward method origin backend (strip_prefix (text "/proxy/judge") path)
