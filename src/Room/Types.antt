-- ===== src/Room/Types.antt =====
-- services/room/internal/repository/room.go and service/types.go: rooms, members and errors. An
-- identifier is a number, and uuid.Nil is 0; a time is a number.
use efir.Prelude.{ℕ, String, List, Bool, true, false}
use efir.Exec.{World, Exec}

pub data RoomType : Type 0 where
  direct group : RoomType

pub data MemberRole : Type 0 where
  owner member : MemberRole

abbrev pub is_direct : RoomType → Bool
is_direct direct = true
is_direct group = false

abbrev pub is_owner : MemberRole → Bool
is_owner owner = true
is_owner member = false

pub record Room : Type 0 where
  pub id : ℕ
  pub name : String
  pub type : RoomType
  pub created_by : ℕ
  pub created_at : ℕ
  pub updated_at : ℕ

pub record RoomMember : Type 0 where
  pub room_id : ℕ
  pub user_id : ℕ
  pub role : MemberRole
  pub joined_at : ℕ

-- The two tables.
pub record Db : Type 0 where
  pub rooms : List Room
  pub members : List RoomMember

-- The errors of the repository; `backend` is every error of the database itself.
pub data RepoError : Type 0 where
  room_not_found member_not_found member_already_exists direct_room_exists backend : RepoError

-- What the publisher puts on the bus, with the recipients.
pub data RoomEvent : Type 0 where
  room_created : ℕ → List ℕ → RoomEvent
  membership_changed : ℕ → ℕ → String → List ℕ → RoomEvent
  room_updated : ℕ → String → List ℕ → RoomEvent
  room_deleted : ℕ → List ℕ → RoomEvent

abbrev pub RoomWorld : Type 0
RoomWorld = World Db RoomEvent

abbrev pub Repo : Type 0 → Type 0
Repo A = Exec Db RoomEvent RepoError A
