-- ===== src/Backend/Status.antt =====
-- `BackendStatus`, `grpcReadyOrIdle` and `getStatus` of `server/backend.go`. The state of a connection is a
-- number that gRPC gives, with the states ready and idle as parameters, and the text of the age of an index
-- is a parameter too.
use livegrep.Backend.{Availability, Backend}
use livegrep.Prelude.{ℕ, Bool, ◌||◌, Option, none, some, [], ◌==◌, if◌then◌else◌, Text}

pub record BackendStatus : Type 0 where
  pub grpc_status : ℕ
  pub index_age : Text
  pub index_name : Text
  pub up : Availability
  pub bu_grpc_status : ℕ
  pub bu_index_age : Text
  pub bu_index_name : Text
  -- a pointer, nil without a backup
  pub bu_up : Option Availability

-- a backend with its name and the state of its connection
pub record Observed : Type 0 where
  pub id : Text
  pub backend : Backend
  pub state : ℕ

module _ (ready idle : ℕ) (age_text : ℕ → Text) where
  abbrev pub grpc_ready_or_idle : Observed → Bool
  grpc_ready_or_idle bk = bk.state == ready || bk.state == idle

  abbrev pub index_age_of : Observed → Text
  index_age_of bk = if grpc_ready_or_idle bk then age_text bk.backend.info.index_time else []

  abbrev pub own_status : Observed → BackendStatus
  own_status bk = record {
    grpc_status = bk.state;
    index_age = index_age_of bk;
    index_name = bk.backend.info.name;
    up = bk.backend.up;
    bu_grpc_status = 0;
    bu_index_age = [];
    bu_index_name = [];
    bu_up = none;
  }

  unfoldable pub get_status : Observed → Option Observed → BackendStatus
  get_status bk none = own_status bk
  get_status bk (some bu) = record (own_status bk) {
    bu_grpc_status = bu.state;
    bu_index_age = index_age_of bu;
    bu_index_name = bu.id;
    bu_up = some bu.backend.up;
  }
