-- ===== src/Rooms/Steps.antt =====
-- The rooms' tables over time: every operation that writes them is a step, whatever its arguments, its
-- clock and its outcome.
use sync_server.Prelude.{ℕ, ◌≡◌, sym, subst, String}
use sync_server.Store.{Database, Context}
use sync_server.Rooms.Talk.{mark_room_read, send_room_message}
use sync_server.Rooms.Spec.{RoomCall, call}
use sync_server.Rooms.Consistent.{IsConsistent}
use sync_server.Rooms.Runs.{call_lem}
use sync_server.Rooms.Reading.{mark-IsConsistent}
use sync_server.Rooms.Sending.{send-IsConsistent}

pub data Step (db db' : Database) : Type 0 where
  calls : (c : RoomCall) → db' ≡ (call c db).1 → Step db db'
  sends :
      (ctx : Context) (r u : ℕ) (body : String)
      → db' ≡ (send_room_message ctx r u body db).1
      → Step db db'
  marks : (ctx : Context) (r u : ℕ) → db' ≡ (mark_room_read ctx r u db).1 → Step db db'

pub data Reach (start : Database) : Database → Type 0 where
  here : Reach start start
  next : {db db' : Database} → Reach start db → Step db db' → Reach start db'

Step-IsConsistent : {db db' : Database} → Step db db' → IsConsistent db → IsConsistent db'
Step-IsConsistent {db} (calls c e) v = subst IsConsistent (sym e) (call_lem c db v).1
Step-IsConsistent {db} (sends ctx r u body e) v =
    subst IsConsistent (sym e) (send-IsConsistent ctx r u body db v)
Step-IsConsistent {db} (marks ctx r u e) v =
    subst IsConsistent (sym e) (mark-IsConsistent ctx r u db v)

-- Whatever steps are taken from consistent tables, the tables stay consistent: users, rooms and
-- messages have their identifiers, and a room its members, once each; every member and every message
-- belongs to a room that is there; and every room has a member.
pub Reach-IsConsistent :
    {start db : Database} → IsConsistent start → Reach start db → IsConsistent db
Reach-IsConsistent v here = v
Reach-IsConsistent v (next before step) = Step-IsConsistent step (Reach-IsConsistent v before)
