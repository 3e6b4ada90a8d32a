-- ===== src/Tests/Gateway.antt =====
-- The event stream, the proxy and the archive of an image at concrete inputs.
use iicpc_distributed_benchm.Base.{
  ℕ, ◌≡◌, ◌≢◌, refl, ap, List, [], ◌∷◌, ◌++◌, true, false, none, some, Text, text, All, Result,
  done, failed, get_or, arith,
}
use iicpc_distributed_benchm.JudgeApi.Cors.{cors_middleware}
use iicpc_distributed_benchm.LeaderboardApi.EventReader.{IsLineByte, read, start_reader}
use iicpc_distributed_benchm.LeaderboardApi.Stream.{
  StreamEvent, client_gone, heartbeat, message, stream, http_error, event_stream, stream_headers,
  events_of, stream_read,
}
use iicpc_distributed_benchm.LeaderboardApi.Proxy.{Backend, replied, proxy}
use iicpc_distributed_benchm.LeaderboardApi.Proxy.Shielded.{IsShielded, Passed, proxy-IsShielded}
use iicpc_distributed_benchm.Sandbox.Archive.{Entry, zeros, tar_dir}
use iicpc_distributed_benchm.Sandbox.Archive.Whole.{
  Walked, nothing, directory, file, Fails, archive, last_padding, tar_dir-archive,
}

-- Payloads in quotes, with a mark for every byte.
abbrev quote : Text → Text
quote [] = text "\"\""
quote (c ∷ s) = text "." ++ quote s

quote-IsLineByte : (payload : Text) → All IsLineByte (quote payload)
quote-IsLineByte [] = ((refl, refl), ((refl, refl), tt))
quote-IsLineByte (c ∷ s) = ((refl, refl), quote-IsLineByte s)

abbrev stream_events : List StreamEvent
stream_events =
    heartbeat ∷ message (some (text "alice")) ∷ message none ∷ client_gone ∷ heartbeat ∷ []

stream_read_example :
    (stream quote none (text "http://a") (text "GET") false stream_events
      ≡ http_error 500 (text "streaming unsupported"))
    × ((body : Text) × (stream quote none (text "http://a") (text "GET") true stream_events
          ≡ event_stream (stream_headers quote none (text "http://a")) body)
        × ((read start_reader body).dispatched ≡ events_of quote stream_events))
stream_read_example =
    stream_read quote quote-IsLineByte none (text "http://a") (text "GET") stream_events
      (λ e. omega (arith, ap (λ t. get_or t 0 0) e))

-- The judge API allows every origin.
abbrev judge : Text → Text → Backend
judge method path = replied 200 (cors_middleware none (text "http://a") method).0 path

abbrev json_error : Text → Text
json_error e = text "{\"error\":" ++ e

-- No header Connection.
abbrev named : List (Text × Text) → List Text
named hs = []

proxy-IsShielded_example :
    let p =
      proxy none json_error named (text "GET") (text "http://a") (text "/proxy/judge/runs") judge in
    IsShielded none (text "http://a") p
    × (text "GET" ≢ text "OPTIONS"
        → Passed named none (text "http://a") (judge (text "GET") (text "/runs")) p)
    × (text "GET" ≡ text "OPTIONS" → p.code ≡ 204)
proxy-IsShielded_example =
    proxy-IsShielded none json_error named (text "GET") (text "http://a") (text "runs") judge

abbrev header : Text → ℕ → Result Text
header rel size = done (rel ++ size ∷ [])

abbrev root : Entry
root = record {
  walk_error = none;
  is_dir = true;
  rel = done (text ".");
  size = done 0;
  contents = failed (text "is a directory");
}

abbrev dockerfile : Entry
dockerfile = record {
  walk_error = none;
  is_dir = false;
  rel = done (text "Dockerfile");
  size = done 4;
  contents = done (text "FROM");
}

abbrev entries : List Entry
entries = root ∷ dockerfile ∷ []

abbrev files : List (Text × Text)
files = (text "Dockerfile" ++ 4 ∷ [], text "FROM") ∷ []

entries-Walked : Walked header entries files
entries-Walked = directory refl refl (
    file {rel = text "Dockerfile"} {bytes = text "FROM"}
      record {
        walked = refl;
        no_dir = refl;
        has_rel = refl;
        has_size = refl;
        has_header = refl;
        has_contents = refl;
      }
      nothing)

tar_dir-archive_example :
    ((bytes : Text) × (tar_dir header entries ≡ done bytes)
      × (bytes ++ (zeros (last_padding header 0 files) ++ zeros 1024) ≡ archive header files))
    × ((e : Entry) (error : Text) (more : List Entry)
        → Fails header e error
        → tar_dir header (entries ++ e ∷ more) ≡ failed error)
tar_dir-archive_example = tar_dir-archive header entries files entries-Walked
