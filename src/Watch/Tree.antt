-- ===== src/Watch/Tree.antt =====
-- The tree of events: `aggregatedEvent`, `eventDir` and `eventCounter` of
-- back/lib/watchaggregator/aggregator.go, and `EventType` of back/lib/fs/filesystem.go. A path is the
-- list of its segments, the folder itself the empty one. A panic is none.
use vaporcito.Base.{
  ℕ, ◌+◌, [], ◌∷◌, Bool, true, false, Option, none, some, length, ◌==◌, if◌then◌else◌,
}
use vaporcito.Base.Int.{ℤ, pos, ◌+ℤ◌, ltb_ℤ}
use vaporcito.Base.Bytes.{Bytes, bytes_equal}
use vaporcito.Base.Maps.{Map}

-- The bits of the type: `Mixed` has both, and the zero value none.
pub data EventType : Type 0 where
  unset : EventType
  non_remove : EventType
  remove : EventType
  mixed : EventType

-- The bitwise or.
abbrev pub merge : EventType → EventType → EventType
merge unset t = t
merge non_remove unset = non_remove
merge non_remove non_remove = non_remove
merge non_remove remove = mixed
merge non_remove mixed = mixed
merge remove unset = remove
merge remove non_remove = mixed
merge remove remove = remove
merge remove mixed = mixed
merge mixed t = mixed

abbrev pub same_type : EventType → EventType → Bool
same_type unset unset = true
same_type non_remove non_remove = true
same_type remove remove = true
same_type mixed mixed = true
same_type _ _ = false

-- `typ&fs.Remove != 0`
abbrev pub removes_some : EventType → Bool
removes_some remove = true
removes_some mixed = true
removes_some _ = false

pub record AggregatedEvent : Type 0 where
  pub first_mod : ℤ
  pub last_mod : ℤ
  pub ev_type : EventType

-- An `eventDir` and its map of directories, in some order.
mutual
  pub data EventDir : Type 0 where
    event_dir : Map AggregatedEvent → Dirs → EventDir

  pub data Dirs : Type 0 where
    no_dirs : Dirs
    with_dir : Bytes → EventDir → Dirs → Dirs

abbrev pub new_event_dir : EventDir
new_event_dir = event_dir [] no_dirs

abbrev pub dir_count : Dirs → ℕ
dir_count no_dirs = 0
dir_count (with_dir name d ds) = 1 + dir_count ds

abbrev pub child_count : EventDir → ℕ
child_count (event_dir events dirs) = length events + dir_count dirs

abbrev pub events_of : EventDir → Map AggregatedEvent
events_of (event_dir events dirs) = events

-- The map operations on directories.
unfoldable pub lookup_dir : Bytes → Dirs → Option EventDir
lookup_dir name no_dirs = none
lookup_dir name (with_dir n d ds) =
    let later = lookup_dir name ds in if bytes_equal n name then some d else later

unfoldable pub insert_dir : Bytes → EventDir → Dirs → Dirs
insert_dir name new no_dirs = with_dir name new no_dirs
insert_dir name new (with_dir n d ds) =
    let later = insert_dir name new ds in
    if bytes_equal n name then with_dir name new ds else with_dir n d later

unfoldable pub erase_dir : Bytes → Dirs → Dirs
erase_dir name no_dirs = no_dirs
erase_dir name (with_dir n d ds) =
    let later = erase_dir name ds in if bytes_equal n name then later else with_dir n d later

abbrev pub sooner : ℤ → ℤ → ℤ
sooner a b = if ltb_ℤ a b then a else b

-- The loop over the events, from the time or the type so far.
unfoldable pub first_of_events : ℤ → Map AggregatedEvent → ℤ
first_of_events t [] = t
first_of_events t ((name, ev) ∷ events) = first_of_events (sooner ev.first_mod t) events

unfoldable pub type_of_events : EventType → Map AggregatedEvent → EventType
type_of_events t [] = t
type_of_events t ((name, ev) ∷ events) = type_of_events (merge t ev.ev_type) events

abbrev pub and_events {ℓ} : {A : Type ℓ} → Option A → (A → A) → Option A
and_events none f = none
and_events (some a) f = some (f a)

-- The loop over the directories goes on from what one of them answers.
abbrev pub and_dirs {ℓ} : {A : Type ℓ} → Option A → (A → Option A) → Option A
and_dirs none f = none
and_dirs (some a) f = f a

-- From the current time. An empty directory is a bug of the caller.
unfoldable mutual
  pub first_mod_time : ℤ → EventDir → Option ℤ
  first_mod_time now (event_dir events dirs) =
      let found = and_events (first_of_dirs now now dirs) (λ t. first_of_events t events) in
      if length events + dir_count dirs == 0 then none else found

  pub first_of_dirs : ℤ → ℤ → Dirs → Option ℤ
  first_of_dirs now t no_dirs = some t
  first_of_dirs now t (with_dir name d ds) =
      and_dirs (first_mod_time now d) (λ u. first_of_dirs now (sooner u t) ds)

-- Once the type is mixed, the loops end.
unfoldable mutual
  pub event_type : EventDir → Option EventType
  event_type (event_dir events dirs) =
      let found = and_events (type_of_dirs unset dirs) (λ t. type_of_events t events) in
      if length events + dir_count dirs == 0 then none else found

  pub type_of_dirs : EventType → Dirs → Option EventType
  type_of_dirs t no_dirs = some t
  type_of_dirs t (with_dir name d ds) = and_dirs (event_type d) (λ u.
      let rest = type_of_dirs (merge t u) ds in
      if same_type (merge t u) mixed then some mixed else rest)

pub record EventCounter : Type 0 where
  pub removes : ℤ
  pub non_removes : ℤ

abbrev pub no_counts : EventCounter
no_counts = record { removes = pos 0; non_removes = pos 0 }

unfoldable pub add : EventCounter → EventType → ℤ → EventCounter
add c typ n =
    if removes_some typ
    then record c { removes = c.removes +ℤ n }
    else record c { non_removes = c.non_removes +ℤ n }

unfoldable pub total : EventCounter → ℤ
total c = c.removes +ℤ c.non_removes
