-- ===== src/Auth/Users.antt =====
-- internal/db/sqlc/users.sql.go and internal/api/auth/repository.go: the table of users, the
-- statements on it, and the repository over them.
pub mod Integrity
use golang_postgres_starter.Base.{
  ℕ, ◌+◌, Text, codes, Bool, false, if◌then◌else◌, ◌==◌, nat_eq, text_eq, List, [], ◌∷◌, ◌++◌,
  Option, none, some, to_lower, contains,
}
use golang_postgres_starter.Strconv.{ℤ, pos, negsuc}
use golang_postgres_starter.Problem.Errors.{
  GoError, sentinel, no_rows, wrap, Result, ok, failed, or_fail,
}

pub record AuthUser : Type 0 where
  pub id : ℤ
  pub email : Text
  pub email_verified : Bool
  pub phone : Text
  pub phone_verified : Bool
  pub password : Text
  pub role : Text
  pub created_at : ℕ
  pub updated_at : ℕ

-- What an insertion gives: CreateAdminUserParams.
pub record CreateAdminUserParams : Type 0 where
  pub email : Text
  pub phone : Text
  pub password : Text

-- The columns of the table `auth_users`, its rows in the order in which a query meets them, the next
-- identity, and the clock. What PostgreSQL does beyond the statement is a part of the state: the
-- error of every statement while the connection fails, its error for a column that the table has
-- not, and its verdict on a new row.
pub record Database : Type 0 where
  pub columns : List Text
  pub users : List AuthUser
  pub next_id : ℕ
  pub now : ℕ
  pub fault : Option GoError
  pub no_column : Text → GoError
  pub verdict : List AuthUser → AuthUser → Option GoError

-- The first row that a test accepts; pgx.ErrNoRows if there is none.
unfoldable pub first_row : (AuthUser → Bool) → List AuthUser → Result AuthUser
first_row test [] = failed (sentinel no_rows)
first_row test (user ∷ users) =
    let rest = first_row test users in if test user then ok user else rest

abbrev pub unless_fault : {A : Type 0} → Option GoError → Result A → Result A
unless_fault (some err) r = failed err
unless_fault none r = r

-- `WHERE email = LOWER($1)`
unfoldable pub get_user : Database → Text → Result AuthUser
unfolding first_row
get_user db email =
    unless_fault db.fault (first_row (λ user. user.email == to_lower email) db.users)

-- `WHERE au.email = $1`
unfoldable pub get_user_details : Database → Text → Result AuthUser
unfolding first_row
get_user_details db email = unless_fault db.fault (first_row (λ user. user.email == email) db.users)

abbrev pub admin_role : Text
admin_role = codes "admin"

-- The row of the insertion.
unfoldable pub new_admin : Database → CreateAdminUserParams → AuthUser
new_admin db arg = record {
  id = pos db.next_id;
  email = to_lower arg.email;
  email_verified = false;
  phone = arg.phone;
  phone_verified = false;
  password = arg.password;
  role = admin_role;
  created_at = db.now;
  updated_at = db.now;
}

abbrev pub insert_row : Database → AuthUser → Option GoError → Database × Option GoError
insert_row db user (some err) = (db, some err)
insert_row db user none =
    (record db { users = db.users ++ user ∷ []; next_id = db.next_id + 1 }, none)

abbrev pub or_verdict : Option GoError → Option GoError → Option GoError
or_verdict (some err) verdict = some err
or_verdict none verdict = verdict

-- The columns of the INSERT. The last two are NULL in the row; no Go code reads them.
abbrev pub admin_columns : List Text
admin_columns =
    codes "email"
    ∷ codes "phone"
    ∷ codes "password"
    ∷ codes "role"
    ∷ codes "tenant_id"
    ∷ codes "customer_id"
    ∷ []

-- The error of the first column of the statement that the table has not.
unfoldable pub missing_column : Database → List Text → Option GoError
missing_column db [] = none
missing_column db (column ∷ columns) =
    let rest = missing_column db columns in
    if contains db.columns column then rest else some (db.no_column column)

-- `INSERT INTO auth_users`
unfoldable pub create_admin_user : Database → CreateAdminUserParams → Database × Option GoError
unfolding new_admin missing_column
create_admin_user db arg = insert_row db (new_admin db arg) (
    or_verdict db.fault
      (or_verdict (missing_column db admin_columns) (db.verdict db.users (new_admin db arg))))

abbrev pub same_id : ℤ → ℤ → Bool
same_id (pos a) (pos b) = a == b
same_id (negsuc a) (negsuc b) = a == b
same_id _ _ = false

-- `UPDATE auth_users`: the rows and how many of them have changed. The trigger sets the time.
unfoldable pub set_verified : ℕ → Bool → Bool → ℤ → List AuthUser → List AuthUser × ℕ
set_verified now email_verified phone_verified user_id [] = ([], 0)
set_verified now email_verified phone_verified user_id (user ∷ users) =
    let (rest, changed) = set_verified now email_verified phone_verified user_id users in
    if same_id user.id user_id
    then (
      record user {
        email_verified = email_verified;
        phone_verified = phone_verified;
        updated_at = now;
      }
          ∷ rest,
      changed + 1,
    )
    else (user ∷ rest, changed)

-- `repository.FindUser`
unfoldable pub find_user : Database → Text → Result AuthUser
find_user db identity = or_fail (get_user db identity) (wrap (codes "find user: ")) ok

-- `repository.GetUserDetails`
unfoldable pub repository_get_user_details : Database → Text → Result AuthUser
repository_get_user_details db identity =
    or_fail (get_user_details db identity) (wrap (codes "get user details: ")) ok

-- `repository.CreateAdmin`; no phone is given.
unfoldable pub create_admin : Database → Text → Text → Database × Option GoError
create_admin db email password =
    create_admin_user db (record { email = email; phone = []; password = password })

-- The update, unless the connection fails.
unfoldable pub update_unless :
    Option GoError → Database → ℤ → Bool → Bool → Database × Option GoError
update_unless (some err) db user_id email_verified phone_verified = (db, some err)
update_unless none db user_id email_verified phone_verified =
    let (users, changed) = set_verified db.now email_verified phone_verified user_id db.users in
    (record db { users = users }, if changed == 0 then some (sentinel no_rows) else none)

-- `repository.UpdateVerificationStatus`
unfoldable pub update_verification_status : Database → ℤ → Bool → Bool → Database × Option GoError
unfolding update_unless
update_verification_status db = update_unless db.fault db
