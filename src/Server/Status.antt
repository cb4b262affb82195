-- ===== src/Server/Status.antt =====
-- `ServeSearch`, `ServeHealthcheck`, `ServeStats`, `ServeBackendStatus`, `requestProtocol` and `ServeOpensearch`
-- of `server/server.go`. A backend is known by its name, its address and what it has observed; what a
-- range over the map of backends meets is a parameter.
pub mod Health
use livegrep.Backend.{Backend, Tree, is_empty_text}
use livegrep.Backend.Status.{BackendStatus, get_status, Observed}
use livegrep.Call.{map_option}
use livegrep.Dict.{lookup, Dict, text_key, number_key}
use livegrep.Prelude.{
  ℕ, ◌+◌, ◌-◌, ◌/◌, ◌^◌, Bool, not, ◌&&◌, ◌||◌, Option, none, some, List, [], ◌∷◌, ◌++◌, ltb, leb,
  ◌==◌, if◌then◌else◌, Text, codes,
}
use livegrep.Runtime.{nil_dereference, Run, ret, panic}
use livegrep.Search.Handlers.{get_param}
use livegrep.Server.{api_error, Request, served, http_error, written, Reply}

pub record KnownBackend : Type 0 where
  pub addr : Text
  pub observed : Observed
  -- the backup of the backend, which may be nil
  pub backup : Option Observed

abbrev pub index_time_of : KnownBackend → ℕ
index_time_of bk = bk.observed.backend.info.index_time

-- the loops of `ServeSearch`: the first tree of a backend, where no sample is there yet
abbrev pub first_tree : Text → List Tree → Text
first_tree sample [] = sample
first_tree [] (t ∷ ts) = t.name
first_tree (c ∷ sample) (t ∷ ts) = c ∷ sample

unfoldable pub sample_repo : Text → List Backend → Text
sample_repo sample [] = sample
sample_repo sample (bk ∷ bks) = sample_repo (first_tree sample bk.info.trees) bks

-- `ServeHealthcheck`, on the backends in the order of the range
unfoldable pub serve_healthcheck : List KnownBackend → Reply Text
serve_healthcheck [] = written (codes "ok\n")
serve_healthcheck (bk ∷ bks) =
    if index_time_of bk == 0
    then http_error
        (codes "unhealthy backend '" ++ bk.observed.id ++ codes "' '" ++ bk.addr ++ codes "'\n") 500
    else serve_healthcheck bks

-- the loop of `ServeStats` over ages of nanoseconds, -1 second where there is none
abbrev pub older : Option ℕ → ℕ → Option ℕ
older none age = some age
older (some max) age = some (if ltb max age then age else max)

-- `now.Sub(t)`: a Duration is at most 2 ^ 63 - 1 nanoseconds
abbrev pub time_sub : ℕ → ℕ → ℕ
time_sub now t = if ltb (now - t) (2 ^ 63) then now - t else 2 ^ 63 - 1

-- an index from the future has a negative age; one below -1 second does not count, and one above it is 0 seconds
unfoldable pub max_age : ℕ → Option ℕ → List KnownBackend → Option ℕ
max_age now age [] = age
max_age now age (bk ∷ bks) =
    max_age now
      (if index_time_of bk == 0 || leb (now + 1000000000) (index_time_of bk)
        then age
        else older age (time_sub now (index_time_of bk)))
      bks

-- the age in seconds, `none` for -1
unfoldable pub index_age : ℕ → List KnownBackend → Option ℕ
unfolding max_age
index_age now bks = map_option (λ age. age / 1000000000) (max_age now none bks)

module _ (ready idle : ℕ) (age_text : ℕ → Text)
    (first : Dict Text KnownBackend → Option KnownBackend) where
  -- `ServeBackendStatus`; without a name it takes what the range meets first, which is nil without backends
  unfoldable pub serve_backend_status : Dict Text KnownBackend → Request → Run (Reply BackendStatus)
  unfolding lookup get_status
  serve_backend_status backends r =
      let name = get_param r.params (codes ":backend") in
      if is_empty_text name
      then (elim (first backends) [
        | none ↦ panic nil_dereference
        | some bk ↦ ret (served (get_status ready idle age_text bk.observed bk.backup))
      ])
      else elim (lookup name backends) [
        | none ↦ ret (api_error 400 (codes "bad_backend") (codes "Unknown backend: " ++ name))
        | some bk ↦ ret (served (get_status ready idle age_text bk.observed bk.backup))
      ]

-- `requestProtocol`; `proto` is the header X-Real-Proto
unfoldable pub request_protocol : Bool → Text → Bool → Text
request_protocol reverse_proxy proto tls =
    if reverse_proxy && not (is_empty_text proto)
    then proto
    else if tls
    then codes "https"
    else codes "http"

-- the name in `ServeOpensearch`: the first index name that is not empty
unfoldable pub opensearch_name : List Backend → Text
opensearch_name [] = []
opensearch_name (bk ∷ bks) =
    let later = opensearch_name bks in if is_empty_text bk.info.name then later else bk.info.name
