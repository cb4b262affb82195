-- ===== src/Tests/ServerTests.antt =====
-- The theorems about `server/backend.go` at concrete polls.
use livegrep.Backend.{
  refresh_trees, refresh, error_code, get_info, new_backend, reply, unix, Backend, Round,
  ServerInfo, Tree, is_up_now, poll, poll_round,
}
use livegrep.Backend.Outage.{poll-outage, poll-IsConsistent, round_of, Failure, IsConsistent}
use livegrep.Backend.Status.{Observed, get_status}
use livegrep.Prelude.{
  ◌≡◌, refl, Bool, false, none, some, List, [], ◌∷◌, arith, map, ◌==◌, Text, codes,
}
use livegrep.Runtime.{Run, ret}

-- a stand-in for url.ParseRequestURI: what begins with a slash parses
abbrev parses_uri : Text → Bool
parses_uri [] = false
parses_uri (c ∷ s) = c == b'/'

run : List Round → Backend → Run Backend
unfolding poll poll_round get_info refresh refresh_trees
run = poll parses_uri

abbrev kernel_info : ServerInfo
kernel_info = record {
  name = codes "kernel";
  trees =
      record {
        name = codes "linux";
        version = codes "v6";
        metadata = some (record { url_pattern = codes "u"; github = codes "torvalds/linux" });
      }
      ∷ [];
  index_time = 1700000000;
}

abbrev kernel_tree : Tree
kernel_tree = record {
  name = codes "linux";
  version = codes "v6";
  url = codes "https://github.com/torvalds/linux/blob/{version}/{path}#L{lno}";
}

abbrev start : Backend
start = new_backend (codes "id")

abbrev started : Backend
started = record {
  info = record { name = codes "kernel"; trees = kernel_tree ∷ []; index_time = unix 1700000000 };
  up = is_up_now;
}

abbrev first_round : Round
first_round = record { now = 5; quick_info = reply 1700000000; info = reply kernel_info }

started_run : poll parses_uri (first_round ∷ []) start ≡ ret started
unfolding run
started_run = refl

started_round : poll_round parses_uri 5 (reply 1700000000) (reply kernel_info) start ≡ ret started
unfolding run
started_round = refl

poll-IsConsistent_example : IsConsistent started.up
poll-IsConsistent_example =
    poll-IsConsistent parses_uri (first_round ∷ []) start (λ e. absurd (cc e)) started_run

abbrev failures : List Failure
failures =
    record { now = 8; code = 14; info = error_code 14 }
    ∷ record { now = 9; code = 4; info = error_code 4 }
    ∷ []

poll-outage_example :
    poll parses_uri
      (map round_of (record { now = 7; code = 2; info = error_code 2 } ∷ failures))
      started
    ≡ ret (record {
      info = started.info;
      up = record { is_up = false; down_since = 7; down_code = 2 };
    })
poll-outage_example =
    poll-outage parses_uri (record { now = 7; code = 2; info = error_code 2 }) failures started refl
      (λ e. omega arith)

abbrev observed : Observed
observed = record { id = codes "id"; backend = started; state = 2 }

status_run :
    ((get_status 2 0 (λ t. codes "3m0s") observed none).index_age ≡ codes "3m0s")
    × ((get_status 2 0
          (λ t. codes "3m0s")
          observed
          (some (record observed { state = 3 }))).bu_index_age
        ≡ [])
unfolding get_status
status_run = (refl, refl)
