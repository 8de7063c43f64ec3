-- ===== src/Store.antt =====
-- The tables that the modelled services read and write, and the actions on them. An action returns
-- its result and the tables; `conn.transaction` puts the tables back when the result is an error.
-- A table is the list of its rows.
mod Rows
unfoldable pub use Rows.*
use mathlib.Core.Option
use sync_server.Prelude.{
  ℕ, String, ◌≡◌, refl, sym, ap, subst, ◌∙◌, Bool, true, false, Option, none, some, List, [], ◌∷◌,
  ◌==◌, str_eq, find?, if◌then◌else◌,
}
use sync_server.Prelude.Int.{ℤ}
use sync_server.Errors.{AppError, Result, ok, err, panic}
use sync_server.Guild.Types.{
  GuildPolicyConfig, UserGuildStats, DailyActionCounter, GuildScoreEvent, Value,
}
use sync_server.Rooms.Types.{Room, RoomMember, RoomMessage}
use sync_server.Moderation.Types.{ModerationReport, UserBlock}

-- `models/user.rs`: the columns that the services below read or write.
pub record User : Type 0 where
  pub id : ℕ
  pub username : String
  pub avatar_base64 : Option String
  pub description : Option String
  pub role : String
  pub is_active : Bool
  pub ugc_terms_accepted_at : Option ℕ
  pub ugc_terms_version : ℤ
  pub dm_restricted_until : Option ℕ
  pub safety_warning_count : ℤ
  pub yellow_card_expires_at : Option ℕ

-- `models/message.rs`
pub record Message : Type 0 where
  pub id : ℕ
  pub sender_id : ℕ
  pub recipient_id : ℕ
  pub content : String
  pub delivered_at : Option ℕ
  pub read_at : Option ℕ
  pub deleted_at : Option ℕ
  pub created_at : ℕ

-- `models/admin.rs`
pub record AdminAuditLog : Type 0 where
  pub id : ℕ
  pub actor_user_id : Option ℕ
  pub action : String
  pub target : Option String
  pub details : Value
  pub created_at : ℕ

pub record AdminSetting : Type 0 where
  pub key : String
  pub value : String

pub record Database : Type 0 where
  pub users : List User
  pub settings : List AdminSetting
  pub stats : List UserGuildStats
  pub counters : List DailyActionCounter
  pub events : List GuildScoreEvent
  pub messages : List Message
  pub audit : List AdminAuditLog
  pub rooms : List Room
  pub room_members : List RoomMember
  pub room_messages : List RoomMessage
  pub reports : List ModerationReport
  pub blocks : List UserBlock

-- What a call takes from outside: the server's clock, the database's clock (the default of the
-- `created_at` columns), a fresh identifier, the first day that a date can stand for, the JSON codec
-- of the policy, and the text of an identifier with `Uuid::parse_str`.
pub record Context : Type 0 where
  pub now : ℕ
  pub db_now : ℕ
  pub new_id : ℕ
  pub first_day : ℤ
  pub from_str : String → Option GuildPolicyConfig
  pub to_string : GuildPolicyConfig → Option String
  pub uuid_text : ℕ → String
  pub parse_uuid : String → Option ℕ

abbrev pub Action : Type 0 → Type 0
Action A = Database → Result A × Database

abbrev pub pure : {A : Type 0} → A → Action A
pure a db = (ok a, db)

abbrev pub fail : {A : Type 0} → AppError → Action A
fail e db = (err e, db)

abbrev pub lift : {A : Type 0} → Result A → Action A
lift r db = (r, db)

abbrev pub gets : {A : Type 0} → (Database → A) → Action A
gets f db = (ok (f db), db)

abbrev pub modify : (Database → Database) → Action (Unit {0})
modify f db = (ok tt, f db)

infixl 5 ◌>>=◌ ◌>>◌
abbrev pub ◌>>=◌ : {A B : Type 0} → Action A → (A → Action B) → Action B
◌>>=◌ m f db =
    let (r, db') = m db in elim r [ ok a ↦ f a db' | err e ↦ (err e, db') | panic ↦ (panic, db') ]

abbrev pub ◌>>◌ : {B : Type 0} → Action (Unit {0}) → Action B → Action B
m >> k = m >>= λ _. k

-- `conn.transaction`
abbrev pub transaction : {A : Type 0} → Action A → Action A
transaction m db =
    let (r, db') = m db in elim r [ ok a ↦ (ok a, db') | err e ↦ (err e, db) | panic ↦ (panic, db) ]

-- `first(…)` and `get_result(…)` answer a missing row by an error of the database.
abbrev pub row_or_error : {A : Type 0} → Option A → Action A
row_or_error none = fail AppError.database
row_or_error (some a) = pure a

-- A row that names a user who is not there breaks a foreign key.
unfoldable pub has_user : ℕ → Database → Bool
has_user id db = elim (find? (λ u. u.id == id) db.users) [ none ↦ false | some _ ↦ true ]

unfoldable pub require_user : ℕ → Action (Unit {0})
unfolding has_user
require_user id db = if has_user id db then (ok tt, db) else (err AppError.database, db)

pub require_user_there :
    (id : ℕ) (db : Database) → has_user id db ≡ true → require_user id db ≡ (ok tt, db)
unfolding require_user
require_user_there id db h = rw h

pub require_user_missing :
    (id : ℕ) (db : Database)
    → has_user id db ≡ false
    → require_user id db ≡ (err AppError.database, db)
unfolding require_user
require_user_missing id db h = rw h

pub has_user_of_users :
    (id : ℕ) (db db' : Database) → db'.users ≡ db.users → has_user id db' ≡ has_user id db
unfolding has_user
has_user_of_users id db db' e = rw e

-- A step that succeeds hands its value on.
pub >>=_of_ok :
    {A B : Type 0} (m : Action A) (f : A → Action B) (db db' : Database) (a : A)
    → m db ≡ (ok a, db')
    → (m >>= f) db ≡ f a db'
>>=_of_ok m f db db' a h =
    ap (λ r. elim r.0 [ ok a ↦ f a r.1 | err e ↦ (err e, r.1) | panic ↦ (panic, r.1) ]) h

-- A transaction that succeeds commits.
pub transaction_of_ok :
    {A : Type 0} (m : Action A) (db db' : Database) (a : A)
    → m db ≡ (ok a, db')
    → transaction m db ≡ (ok a, db')
transaction_of_ok m db db' a h =
    ap (λ r. elim r.0 [ ok a ↦ (ok a, r.1) | err e ↦ (err e, db) | panic ↦ (panic, db) ]) h

-- And the other way round: where the whole succeeds, the step did, and so does the rest.
pub >>=_inv :
    {A B : Type 0} (m : Action A) (f : A → Action B) (db db'' : Database) (b : B)
    → (m >>= f) db ≡ (ok b, db'')
    → (a : A) × (db' : Database) × (m db ≡ (ok a, db')) × (f a db' ≡ (ok b, db''))
>>=_inv {A} {B} m f db db'' b h = bound (m db) refl h
  where
    bound :
        (r : Result A × Database)
        → m db ≡ r
        → ◌≡◌ {A = Result B × Database}
            (elim r.0 [ ok a ↦ f a r.1 | err e ↦ (err e, r.1) | panic ↦ (panic, r.1) ])
            (ok b, db'')
        → (a : A) × (db' : Database) × (m db ≡ (ok a, db')) × (f a db' ≡ (ok b, db''))
    bound (ok a, db') ran h = (a, db', ran, h)
    bound (err e, db') ran h = cc
    bound (panic, db') ran h = cc

-- What a transaction leaves: what its body did, if it succeeded, or the tables as they were.
pub transaction_keeps {ℓ} :
    {A : Type 0} (P : Database → Type ℓ) (m : Action A) (db : Database)
    → P db
    → ((a : A) (db' : Database) → m db ≡ (ok a, db') → P db')
    → P (transaction m db).1
transaction_keeps {A} P m db before after = ended (m db) refl
  where
    ended :
        (r : Result A × Database)
        → m db ≡ r
        → P
            (elim r.0 as (λ _. Result A × Database) [
              | ok a ↦ (ok a, r.1)
              | err e ↦ (err e, db)
              | panic ↦ (panic, db)
            ]).1
    ended (ok a, db') ran = after a db' ran
    ended (err e, db') ran = before
    ended (panic, db') ran = before

-- The same for a step that touches no tables.
pub lift_inv :
    {A B : Type 0} (r : Result A) (f : A → Action B) (db db'' : Database) (b : B)
    → (lift r >>= f) db ≡ (ok b, db'')
    → (a : A) × (r ≡ ok a) × (f a db ≡ (ok b, db''))
lift_inv (ok a) f db db'' b h = (a, refl, h)
lift_inv (err e) f db db'' b h = cc
lift_inv panic f db db'' b h = cc

-- And for a step that leaves them.
pub same_inv :
    {A B : Type 0} (m : Action A) (f : A → Action B) (db db'' : Database) (b : B)
    → (m db).1 ≡ db
    → (m >>= f) db ≡ (ok b, db'')
    → (a : A) × (m db ≡ (ok a, db)) × (f a db ≡ (ok b, db''))
same_inv m f db db'' b keeps h =
    let (a, db', ran, rest) = >>=_inv m f db db'' b h in
    let same : db' ≡ db = sym (ap (λ r. r.1) ran) ∙ keeps in
    (a, ran ∙ (λ i. (ok a, same i)), subst (λ d. f a d ≡ (ok b, db'')) same rest)
