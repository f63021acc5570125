-- ===== src/Storage/Sessions.antt =====
-- tako_vm/storage.py: the tables sessions and session_events.
use tako_vm.Prelude.{
  ℕ, zero, suc, ◌+◌, String, Option, none, some, Bool, true, false, ◌&&◌, List, [], ◌∷◌, ◌++◌, leb,
  ltb, take, drop, if◌then◌else◌, str_eq, Dict, get, put,
}
pub mod Events

-- SessionRecord; a JSON value is its canonical text.
pub record SessionRecord : Type 0 where
  pub session_id : String
  pub status : String
  pub container_name : String
  pub container_id : Option String
  pub image_name : Option String
  pub runtime : Option String
  pub workspace_dir : String
  pub created_at : ℕ
  pub started_at : Option ℕ
  pub last_activity_at : ℕ
  pub expires_at : Option ℕ
  pub ended_at : Option ℕ
  pub idle_timeout_seconds : ℕ
  pub ttl_seconds : ℕ
  pub metadata : Option String

abbrev pub Sessions : Type 0
Sessions = Dict SessionRecord

abbrev pub upserted : Option SessionRecord → SessionRecord → SessionRecord
upserted none new = new
upserted (some old) new = record new { created_at = old.created_at }

-- INSERT … ON CONFLICT DO UPDATE: every column but created_at is replaced.
unfoldable pub save_session : Sessions → SessionRecord → Sessions
save_session t s = put t s.session_id (upserted (get t s.session_id) s)

-- `row.get("metadata_json") or {}`
abbrev metadata_of : Option String → Option String
metadata_of none = some "{}"
metadata_of (some m) = some m

unfoldable pub row_to_session : SessionRecord → SessionRecord
row_to_session s = record s { metadata = metadata_of s.metadata }

abbrev pub session_of : Option SessionRecord → Option SessionRecord
unfolding row_to_session
session_of none = none
session_of (some s) = some (row_to_session s)

unfoldable pub get_session : Sessions → String → Option SessionRecord
unfolding row_to_session
get_session t id = session_of (get t id)

abbrev has_status : String → SessionRecord → Bool
has_status status s = if str_eq status "" then true else str_eq s.status status

-- `ORDER BY created_at DESC`; rows of one time come in the order in which they are scanned.
unfoldable pub insert_session : SessionRecord → List SessionRecord → List SessionRecord
insert_session s [] = s ∷ []
insert_session s (x ∷ xs) =
    let rest = insert_session s xs in if leb x.created_at s.created_at then s ∷ x ∷ xs else x ∷ rest

unfoldable pub newest_sessions : List SessionRecord → List SessionRecord
unfolding insert_session
newest_sessions [] = []
newest_sessions (s ∷ ss) = insert_session s (newest_sessions ss)

unfoldable pub with_status : String → Sessions → List SessionRecord
unfolding row_to_session
with_status status [] = []
with_status status ((id, s) ∷ t) =
    let rest = with_status status t in if has_status status s then row_to_session s ∷ rest else rest

-- `order` is the order in which the server scans the rows for this query.
unfoldable pub list_sessions :
    (List SessionRecord → List SessionRecord)
    → Sessions
    → String
    → (limit offset : ℕ) → List SessionRecord
unfolding with_status newest_sessions
list_sessions order t status limit offset =
    take limit (drop offset (newest_sessions (order (with_status status t))))

abbrev touched : ℕ → Option SessionRecord → Sessions → String → Bool × Sessions
touched now none t id = (false, t)
touched now (some s) t id = (true, put t id (record s { last_activity_at = now }))

unfoldable pub touch_session : ℕ → Sessions → String → Bool × Sessions
touch_session now t id = touched now (get t id) t id

-- SessionEvent, with its database id.
pub record SessionEvent : Type 0 where
  pub id : ℕ
  pub session_id : String
  pub direction : String
  pub event_type : String
  pub payload : Option String
  pub created_at : ℕ

-- session_events with the next value of its sequence; a row of a higher id stands later.
pub record EventTable : Type 0 where
  pub next_id : ℕ
  pub rows : List SessionEvent

unfoldable pub save_session_event : EventTable → SessionEvent → SessionEvent × EventTable
save_session_event t e =
    let saved = record e { id = t.next_id } in
    (saved, record { next_id = suc t.next_id; rows = t.rows ++ saved ∷ [] })

-- `session_id = … AND id > …`, in the order of the ids.
unfoldable pub events_after : String → ℕ → List SessionEvent → List SessionEvent
events_after id after [] = []
events_after id after (e ∷ es) =
    let rest = events_after id after es in
    if str_eq e.session_id id && ltb after e.id then e ∷ rest else rest

unfoldable pub list_session_events : EventTable → String → (after limit : ℕ) → List SessionEvent
unfolding events_after
list_session_events t id after limit = take limit (events_after id after t.rows)
