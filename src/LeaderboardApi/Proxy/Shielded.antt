-- ===== src/LeaderboardApi/Proxy/Shielded.antt =====
-- What a client has of the answers that the proxy passes on.
use iicpc_distributed_benchm.Base.{
  ℕ, ◌≡◌, ◌≢◌, refl, sym, ap, ◌∙◌, ◌==◌, if◌then◌else◌, List, [], ◌∷◌, ◌++◌, append-nil, Bool-cases,
  true, false, inl, inr, Option, none, some, Text, text, text_eq, text_eq_iff, ne→text_eq, All,
  arith,
}
use iicpc_distributed_benchm.JudgeApi.Cors.{allow_origin, member}
use iicpc_distributed_benchm.LeaderboardApi.Parameters.{set_cors}
use iicpc_distributed_benchm.LeaderboardApi.Proxy.{
  Backend, unreachable, replied, Proxied, del, del_all, hop_headers, allow_methods, allow_headers,
  allow_credentials, modify_response, strip_prefix, serve, proxy,
}

-- The values of the headers with a name.
unfoldable pub values : Text → List (Text × Text) → List Text
values name [] = []
values name ((k, v) ∷ hs) = let rest = values name hs in if text_eq k name then v ∷ rest else rest

-- Names that compare as different.
differ : (a b : Text) → text_eq a b ≡ false → a ≢ b
differ a b h e = let same = (text_eq_iff a b).1 e in absurd (cc)

values-append :
    (name : Text) (hs js : List (Text × Text))
    → values name (hs ++ js) ≡ values name hs ++ values name js
unfolding values
values-append name [] js = refl
values-append name ((k, v) ∷ hs) js = elim (Bool-cases (text_eq k name)) [
  | inl e ↦ rw e (ap (◌∷◌ v) (values-append name hs js))
  | inr e ↦ rw e (values-append name hs js)
]

values-del_same : (name : Text) (hs : List (Text × Text)) → values name (del name hs) ≡ []
unfolding values del
values-del_same name [] = refl
values-del_same name ((k, v) ∷ hs) = elim (Bool-cases (text_eq k name)) [
  | inl e ↦ rw e (values-del_same name hs)
  | inr e ↦ rw (e, e) (values-del_same name hs)
]

values-del_other :
    (name other : Text) (hs : List (Text × Text))
    → other ≢ name
    → values name (del other hs) ≡ values name hs
unfolding values del
values-del_other name other [] ne = refl
values-del_other name other ((k, v) ∷ hs) ne = elim (Bool-cases (text_eq k other)) [
  | inl e ↦
      let k_ne = ne→text_eq k name (λ same. ne (sym ((text_eq_iff k other).0 e) ∙ same)) in
      rw (e, k_ne) (values-del_other name other hs ne)
  | inr e ↦ elim (Bool-cases (text_eq k name)) [
    | inl same ↦ rw (e, same) (ap (◌∷◌ v) (values-del_other name other hs ne))
    | inr different ↦ rw (e, different) (values-del_other name other hs ne)
  ]
]

modify_response-values :
    (hs : List (Text × Text))
    → All
        (λ name. values name (modify_response hs) ≡ [])
        (allow_origin ∷ allow_methods ∷ allow_headers ∷ allow_credentials ∷ [])
unfolding text_eq
modify_response-values hs =
    let without_methods = del allow_methods (del allow_origin hs) in
    (
      values-del_other allow_origin allow_credentials _ (differ allow_credentials allow_origin refl)
          ∙ (values-del_other allow_origin allow_headers _ (differ allow_headers allow_origin refl)
              ∙ (values-del_other allow_origin allow_methods _
                    (differ allow_methods allow_origin refl)
                  ∙ values-del_same allow_origin hs)),
      (
        values-del_other allow_methods allow_credentials _
              (differ allow_credentials allow_methods refl)
            ∙ (values-del_other allow_methods allow_headers _
                  (differ allow_headers allow_methods refl)
                ∙ values-del_same allow_methods (del allow_origin hs)),
        (
          values-del_other allow_headers allow_credentials _
                (differ allow_credentials allow_headers refl)
              ∙ values-del_same allow_headers without_methods,
          (values-del_same allow_credentials _, tt),
        ),
      ),
    )

-- `setCORS`, by the values of its headers.
abbrev pub allowed_origins : Option (List Text) → Text → List Text
allowed_origins none origin = text "*" ∷ []
allowed_origins (some origins) origin = if member origin origins then origin ∷ [] else []

-- The headers of the judge API for other origins are not there.
pub record IsShielded (origins : Option (List Text)) (origin : Text) (p : Proxied) : Type 0 where
  pub origin_once : values allow_origin p.headers ≡ allowed_origins origins origin
  pub methods : values allow_methods p.headers ≡ text "GET, OPTIONS" ∷ []
  pub allowed_headers : values allow_headers p.headers ≡ text "Content-Type" ∷ []
  pub no_credentials : values allow_credentials p.headers ≡ []

set_cors-values :
    (origins : Option (List Text)) (origin : Text)
    → IsShielded origins origin
        (record { code = 204; headers = set_cors origins origin; body = [] })
unfolding set_cors values text_eq
set_cors-values none origin = record {
  origin_once = refl;
  methods = refl;
  allowed_headers = refl;
  no_credentials = refl;
}
set_cors-values (some origins) origin = elim (Bool-cases (member origin origins)) [
  | inl e ↦ record {
    origin_once = rw e refl;
    methods = rw e refl;
    allowed_headers = rw e refl;
    no_credentials = rw e refl;
  }
  | inr e ↦ record {
    origin_once = rw e refl;
    methods = rw e refl;
    allowed_headers = rw e refl;
    no_credentials = rw e refl;
  }
]

-- More headers, of other names, change nothing of that.
IsShielded-append :
    (origins : Option (List Text)) (origin : Text) (code : ℕ) (hs : List (Text × Text))
    (body : Text)
    → All
        (λ name. values name hs ≡ [])
        (allow_origin ∷ allow_methods ∷ allow_headers ∷ allow_credentials ∷ [])
    → IsShielded origins origin
        (record { code = code; headers = set_cors origins origin ++ hs; body = body })
IsShielded-append origins origin code hs body (o, (m, (h, (c, t)))) =
    let cors = set_cors-values origins origin in
    record {
      origin_once = more allow_origin o ∙ cors.origin_once;
      methods = more allow_methods m ∙ cors.methods;
      allowed_headers = more allow_headers h ∙ cors.allowed_headers;
      no_credentials = more allow_credentials c ∙ cors.no_credentials;
    }
  where
    more :
        (name : Text)
        → values name hs ≡ []
        → values name (set_cors origins origin ++ hs) ≡ values name (set_cors origins origin)
    more name none_more =
        values-append name (set_cors origins origin) hs
        ∙ (ap (λ vs. values name (set_cors origins origin) ++ vs) none_more
            ∙ append-nil (values name (set_cors origins origin)))

values-del_all :
    (name : Text) (names : List Text) (hs : List (Text × Text))
    → All (λ deleted. deleted ≢ name) names
    → values name (del_all names hs) ≡ values name hs
values-del_all name [] hs h = refl
values-del_all name (other ∷ names) hs h =
    values-del_all name names (del other hs) h.1 ∙ values-del_other name other hs h.0

-- What a client has of the backend's answer: the status, the body, and each header that is neither
-- hop-by-hop nor one of `setCORS`.
abbrev pub Passed :
    (List (Text × Text) → List Text) → Option (List Text) → Text → Backend → Proxied → Type 0
Passed named origins origin (unreachable e) p = p.code ≡ 502
Passed named origins origin (replied code hs body) p =
    (p.code ≡ code)
    × (p.body ≡ body)
    × ((name : Text)
        → All (λ deleted. deleted ≢ name)
            (allow_origin ∷ allow_methods ∷ allow_headers ∷ allow_credentials ∷ [])
        → All (λ deleted. deleted ≢ name) hop_headers
        → All (λ deleted. deleted ≢ name) (named hs)
        → values name p.headers ≡ values name (set_cors origins origin) ++ values name hs)

modify_response-values_other :
    (name : Text) (hs : List (Text × Text))
    → All
        (λ deleted. deleted ≢ name)
        (allow_origin ∷ allow_methods ∷ allow_headers ∷ allow_credentials ∷ [])
    → values name (modify_response hs) ≡ values name hs
modify_response-values_other name hs (o, (m, (h, (c, t)))) =
    values-del_other name allow_credentials _ c
    ∙ (values-del_other name allow_headers _ h
        ∙ (values-del_other name allow_methods _ m ∙ values-del_other name allow_origin hs o))

module _ (origins : Option (List Text)) (json_error : Text → Text)
    (named : List (Text × Text) → List Text) where
  serve-IsShielded :
      (origin : Text) (b : Backend)
      → IsShielded origins origin (serve origins json_error named origin b)
  unfolding values text_eq
  serve-IsShielded origin (unreachable e) =
      IsShielded-append origins origin 502 _ _ (refl, (refl, (refl, (refl, tt))))
  serve-IsShielded origin (replied code hs body) =
      IsShielded-append origins origin code _ body (modify_response-values _)

  serve-Passed :
      (origin : Text) (b : Backend)
      → Passed named origins origin b (serve origins json_error named origin b)
  serve-Passed origin (unreachable e) = refl
  serve-Passed origin (replied code hs body) = (
    refl,
    refl,
    λ name other no_hop not_named.
        values-append name (set_cors origins origin) _
        ∙ ap (λ vs. values name (set_cors origins origin) ++ vs)
            (modify_response-values_other name _ other
              ∙ (values-del_all name hop_headers _ no_hop
                  ∙ values-del_all name (named hs) hs not_named)),
  )

  strip_prefix-append : (prefix path : Text) → strip_prefix prefix (prefix ++ path) ≡ some path
  unfolding strip_prefix
  strip_prefix-append [] path = refl
  strip_prefix-append (c ∷ prefix) path =
      let same : (c == c) ≡ true = ground arith in rw same (strip_prefix-append prefix path)

  -- Of every request under `/proxy/judge/`, and every answer of the judge API but 101 and trailers: the
  -- response allows the request's origin, the methods GET and OPTIONS and the header Content-Type,
  -- each once and as `setCORS` does, and no credentials; a request other than OPTIONS goes to the judge
  -- API with the rest of its path, and the client has its status, its body and its other headers but
  -- the hop-by-hop ones, or 502 if it cannot be reached; OPTIONS is answered by 204.
  pub proxy-IsShielded :
      (method origin rest : Text) (backend : Text → Text → Backend)
      → let p =
          proxy origins json_error named method origin (text "/proxy/judge/" ++ rest) backend in
        IsShielded origins origin p
        × (method ≢ text "OPTIONS" → Passed named origins origin (backend method (b'/' ∷ rest)) p)
        × (method ≡ text "OPTIONS" → p.code ≡ 204)
  unfolding proxy
  proxy-IsShielded method origin rest backend =
      let stripped = strip_prefix-append (text "/proxy/judge") (b'/' ∷ rest) in
      elim (Bool-cases (text_eq method (text "OPTIONS"))) [
        | inl e ↦
            rw (stripped, e)
              (
                set_cors-values origins origin,
                (λ other. absurd (other ((text_eq_iff method (text "OPTIONS")).0 e))),
                (λ same. refl),
              )
        | inr e ↦
            rw (stripped, e)
              (
                serve-IsShielded origin (backend method (b'/' ∷ rest)),
                (λ other. serve-Passed origin (backend method (b'/' ∷ rest))),
                (λ same. absurd (differ method (text "OPTIONS") e same)),
              )
      ]
