-- ===== src/Auth/Registered.antt =====
-- The row of a registered user, and how it is found again.
use golang_postgres_starter.Base.{
  ◌+◌, Text, codes, Bool, true, false, to_lower, ◌==◌, nat_eq, text_eq, list_beq_iff, List, [], ◌∷◌,
  ◌++◌, Option, none, ◌≡◌, ◌≢◌, refl, sym, ◌∙◌, ap, inl, inr, Bool-cases, arith, contains, All,
  All-map,
}
use golang_postgres_starter.Problem.Errors.{GoError, Result, ok, or_fail, wrap}
use golang_postgres_starter.Password.{default_config}
use golang_postgres_starter.Password.RoundTrip.{IsUsable}
use golang_postgres_starter.Auth.Users.{
  AuthUser, Database, first_row, unless_fault, get_user, get_user_details, find_user,
  repository_get_user_details, new_admin, insert_row, or_verdict, admin_columns, missing_column,
  create_admin_user, create_admin,
}
use golang_postgres_starter.Auth.{RegisterRequest}

pub default_config-IsUsable : IsUsable default_config
default_config-IsUsable = omega arith

-- A row behind others that fail the test.
test-false : (a b : Text) → a ≢ b → (a == b) ≡ false
test-false a b differ = elim (Bool-cases (a == b)) [
  | inl e ↦ absurd (differ ((list_beq_iff a b).0 e))
  | inr e ↦ e
]

-- A statement on a working connection, behind the wrapping of its error.
connected_row :
    {u : AuthUser} (fault : Option GoError) (message : Text) (m : Result AuthUser)
    → fault ≡ none
    → m ≡ ok u
    → or_fail (unless_fault fault m) (wrap message) ok ≡ ok u
connected_row fault message m up found = rw (up, found) refl

first_row-append :
    (test : AuthUser → Bool) (users : List AuthUser) (u : AuthUser)
    → All (λ v. test v ≡ false) users
    → test u ≡ true
    → first_row test (users ++ u ∷ []) ≡ ok u
unfolding first_row
first_row-append test [] u a h = rw h refl
first_row-append test (v ∷ users) u (other, a) h = rw other (first_row-append test users u a h)

pub to_lower-ne-nil : (s : Text) → s ≢ [] → to_lower s ≢ []
unfolding to_lower
to_lower-ne-nil [] h e = h refl
to_lower-ne-nil (c ∷ s) h e = cc

module _ (db : Database) (user : RegisterRequest) where
  -- The row of the new user, with the hash of its password.
  abbrev pub row_of : Text → AuthUser
  row_of hash = new_admin db (record { email = user.email; phone = []; password = hash })

  abbrev pub with_row : Text → Database
  with_row hash = record db { users = db.users ++ row_of hash ∷ []; next_id = db.next_id + 1 }

  -- The connection works, the table has the columns of the statement, PostgreSQL takes the row, and
  -- nobody has the email.
  pub record IsFree : Type 0 where
    pub connected : db.fault ≡ none
    pub complete : All (λ column. contains db.columns column ≡ true) admin_columns
    pub taken : (hash : Text) → db.verdict db.users (row_of hash) ≡ none
    pub alone : All (λ v. v.email ≢ to_lower user.email) db.users

  row_of-email : (hash : Text) → (row_of hash).email ≡ to_lower user.email
  unfolding new_admin
  row_of-email hash = refl

module _ (db : Database) (user : RegisterRequest) (hash : Text) (free : IsFree db user) where
  no_missing_column :
      (columns : List Text)
      → All (λ column. contains db.columns column ≡ true) columns
      → missing_column db columns ≡ none
  unfolding missing_column
  no_missing_column [] a = refl
  no_missing_column (column ∷ columns) (has, a) = rw has (no_missing_column columns a)

  pub create_admin-with_row : create_admin db user.email hash ≡ (with_row db user hash, none)
  unfolding create_admin create_admin_user
  create_admin-with_row =
      ap
        (λ fault. insert_row db (row_of db user hash) (
          or_verdict fault (
            or_verdict (missing_column db admin_columns)
              (db.verdict db.users (row_of db user hash)))))
        free.connected
      ∙ ap
          (λ missing.
            insert_row db (row_of db user hash)
              (or_verdict missing (db.verdict db.users (row_of db user hash))))
          (no_missing_column admin_columns free.complete)
      ∙ ap (insert_row db (row_of db user hash)) (free.taken hash)

  first_row-row :
      (email : Text)
      → email ≡ to_lower user.email
      → first_row (λ u. u.email == email) (with_row db user hash).users ≡ ok (row_of db user hash)
  first_row-row email same =
      first_row-append (λ u. u.email == email) db.users (row_of db user hash)
        (All-map (λ v. v.email ≢ to_lower user.email) (λ v. (v.email == email) ≡ false)
          (λ v other. test-false v.email email (λ e. other (e ∙ same))) db.users free.alone)
        ((list_beq_iff (row_of db user hash).email email).1 (row_of-email db user hash ∙ sym same))

  pub find_user-row :
      (identity : Text)
      → to_lower identity ≡ to_lower user.email
      → find_user (with_row db user hash) identity ≡ ok (row_of db user hash)
  unfolding find_user get_user
  find_user-row identity same =
      connected_row db.fault (codes "find user: ") _ free.connected
        (first_row-row (to_lower identity) same)

  pub details-row :
      repository_get_user_details (with_row db user hash) (to_lower user.email)
      ≡ ok (row_of db user hash)
  unfolding repository_get_user_details get_user_details
  details-row =
      connected_row db.fault (codes "get user details: ") _ free.connected
        (first_row-row (to_lower user.email) refl)
