-- ===== src/Backend.antt =====
-- `server/backend.go`: what a backend knows of its index, and the poll that keeps it up to date. The
-- mutexes are left out: only the poll of a backend writes these fields. A time is the number of
-- nanoseconds since the zero time of package time. The answers of the two remote calls are inputs.
pub mod Outage
pub mod Refresh
pub mod Status
use livegrep.Prelude.{
  ℕ, ◌+◌, ◌*◌, Bool, true, false, not, ◌||◌, Option, none, some, List, [], ◌∷◌, ◌++◌, ltb, ◌==◌,
  if◌then◌else◌, Text, codes,
}
use livegrep.Runtime.{nil_dereference, Run, ret, panic, ◌>>=◌}

pub record Tree : Type 0 where
  pub name : Text
  pub version : Text
  pub url : Text

-- the struct `I`
pub record IndexInfo : Type 0 where
  pub name : Text
  pub trees : List Tree
  pub index_time : ℕ

pub record Availability : Type 0 where
  pub is_up : Bool
  pub down_since : ℕ
  pub down_code : ℕ

-- the fields of a Backend that change behind `NewBackend`
pub record Backend : Type 0 where
  pub info : IndexInfo
  pub up : Availability

-- the reply of `Info`, with the fields that the code reads
pub record Metadata : Type 0 where
  pub url_pattern : Text
  pub github : Text

pub record TreeInfo : Type 0 where
  pub name : Text
  pub version : Text
  -- a pointer, which may be nil
  pub metadata : Option Metadata

pub record ServerInfo : Type 0 where
  pub name : Text
  pub trees : List TreeInfo
  pub index_time : ℕ

-- what a remote call comes to: a reply or the code of its error
pub data Answer {ℓ} (A : Type ℓ) : Type ℓ where
  reply : A → Answer A
  error_code : ℕ → Answer A

-- One round of `poll`: the time, the answer of `QuickInfo`, and the answer that `Info` would give.
pub record Round : Type 0 where
  pub now : ℕ
  pub quick_info : Answer ℕ
  pub info : Answer ServerInfo

-- `time.Unix(s, 0)` for a time that is not before 1970; the zero time is 62135596800 seconds earlier
abbrev pub unix : ℕ → ℕ
unix s = (62135596800 + s) * 1000000000

-- `Availability{}` and the `I` of a new backend
abbrev pub new_backend : Text → Backend
new_backend id = record {
  info = record { name = id; trees = []; index_time = 0 };
  up = record { is_up = false; down_since = 0; down_code = 0 };
}

abbrev pub is_empty_text : Text → Bool
is_empty_text [] = true
is_empty_text (c ∷ s) = false

abbrev pub is_up_now : Availability
is_up_now = record { is_up = true; down_since = 0; down_code = 0 }

abbrev pub went_down : ℕ → ℕ → Availability → Availability
went_down now code up =
    if up.is_up || up.down_since == 0
    then record { is_up = false; down_since = now; down_code = code }
    else up

-- `parses_uri` is that url.ParseRequestURI gives no error
module _ (parses_uri : Text → Bool) where
  abbrev pub tree_url : Metadata → Text
  tree_url md =
      if is_empty_text md.github
      then md.url_pattern
      else (if parses_uri md.github then md.github else codes "https://github.com/" ++ md.github)
        ++ codes "/blob/{version}/{path}#L{lno}"

  -- the loop over `info.Trees`
  unfoldable pub refresh_trees : List TreeInfo → Run (List Tree)
  refresh_trees [] = ret []
  refresh_trees (r ∷ rs) =
      let rest = refresh_trees rs in
      elim r.metadata [
        | none ↦ panic nil_dereference
        | some md ↦ do
          ts ← rest
          ret (record { name = r.name; version = r.version; url = tree_url md } ∷ ts)
      ]

  -- only a reply with trees replaces those of the backend
  abbrev pub choose_trees : List Tree → List TreeInfo → Run (List Tree)
  choose_trees old [] = ret old
  choose_trees old (r ∷ rs) = refresh_trees (r ∷ rs)

  unfoldable pub refresh : ServerInfo → IndexInfo → Run IndexInfo
  refresh info i = do
    ts ← choose_trees i.trees info.trees
    ret (record {
      name = if is_empty_text info.name then i.name else info.name;
      trees = ts;
      index_time = unix info.index_time;
    })

  -- `getInfo`: an error leaves everything as it is
  unfoldable pub get_info : Answer ServerInfo → IndexInfo → Run IndexInfo
  get_info (reply info) i = refresh info i
  get_info (error_code c) i = ret i

  unfoldable pub poll_round : ℕ → Answer ℕ → Answer ServerInfo → Backend → Run Backend
  poll_round now (reply index_time) info bk =
      if not bk.up.is_up || ltb bk.info.index_time (unix index_time)
      then (do i ← get_info info bk.info; ret (record { info = i; up = is_up_now }))
      else ret (record bk { up = is_up_now })
  poll_round now (error_code c) info bk = ret (record bk { up = went_down now c bk.up })

  -- the rounds of `poll`, in order
  unfoldable pub poll : List Round → Backend → Run Backend
  poll [] bk = ret bk
  poll (r ∷ rs) bk = do bk' ← poll_round r.now r.quick_info r.info bk; poll rs bk'
