-- ===== src/Auth/Users/Integrity.antt =====
-- What stays true of the table of users.
use golang_postgres_starter.Base.{
  ℕ, ◌+◌, ◌<◌, Text, Bool, true, if◌then◌else◌, lower, to_lower, ◌==◌, nat_eq, nat_beq_iff, List,
  [], ◌∷◌, ◌++◌, map, Option, none, some, ◌≡◌, ◌≢◌, subst, refl, sym, ◌∙◌, ap, ◌⊎◌, inl, inr, ◌↔◌,
  arith, All, Any, All-append, All-map, Bool-cases,
}
use golang_postgres_starter.Strconv.{ℤ, pos, negsuc}
use golang_postgres_starter.Problem.Errors.{GoError, sentinel, no_rows}
use golang_postgres_starter.Auth.Users.{
  AuthUser, Database, new_admin, insert_row, create_admin_user, create_admin, same_id, set_verified,
  update_unless, update_verification_status,
}

abbrev pub IsLower : Text → Type 0
IsLower s = to_lower s ≡ s

lower-lower : (c : ℕ) → lower (lower c) ≡ lower c
lower-lower c = ground arith

pub to_lower-IsLower : (s : Text) → IsLower (to_lower s)
unfolding to_lower
to_lower-IsLower [] = refl
to_lower-IsLower (c ∷ s) = ground (arith, lower-lower c, to_lower-IsLower s)

-- The identities that have been given out.
abbrev pub IsGiven : ℕ → ℤ → Type 0
IsGiven next (pos n) = n < next
IsGiven next (negsuc n) = ⊥

abbrev pub IsDistinct : List AuthUser → Type 0
IsDistinct [] = Unit
IsDistinct (u ∷ users) = All (λ v. v.id ≢ u.id) users × IsDistinct users

-- Emails are in lower case, and identities are given out once, 0 to nobody.
pub record IsIntact (db : Database) : Type 0 where
  pub lower_emails : All (λ u. IsLower u.email) db.users
  pub given_ids : All (λ u. IsGiven db.next_id u.id) db.users
  pub distinct_ids : IsDistinct db.users
  pub next_pos : 0 < db.next_id

IsGiven-suc : (next : ℕ) (id : ℤ) → IsGiven next id → IsGiven (next + 1) id
IsGiven-suc next (pos n) h = omega arith
IsGiven-suc next (negsuc n) h = h

IsGiven-ne : (next : ℕ) (id : ℤ) → IsGiven next id → pos next ≢ id
IsGiven-ne next (pos n) h e = ground arith
IsGiven-ne next (negsuc n) h e = h

IsDistinct-append :
    (users : List AuthUser) (u : AuthUser)
    → IsDistinct users
    → All (λ v. u.id ≢ v.id) users
    → IsDistinct (users ++ u ∷ [])
IsDistinct-append [] u d a = (tt, tt)
IsDistinct-append (v ∷ users) u (dv, d) (av, a) =
    (All-append (λ w. w.id ≢ v.id) users (u ∷ []) dv (av, tt), IsDistinct-append users u d a)

insert_row-IsIntact :
    (db : Database) (u : AuthUser) (err : Option GoError)
    → IsIntact db
    → IsLower u.email
    → u.id ≡ pos db.next_id
    → IsIntact (insert_row db u err).0
insert_row-IsIntact db u (some err) i low new_id = i
insert_row-IsIntact db u none i low new_id = record {
  lower_emails = All-append (λ v. IsLower v.email) db.users (u ∷ []) i.lower_emails (low, tt);
  given_ids =
      All-append (λ v. IsGiven (db.next_id + 1) v.id) db.users (u ∷ [])
        (All-map (λ v. IsGiven db.next_id v.id) (λ v. IsGiven (db.next_id + 1) v.id)
          (λ v. IsGiven-suc db.next_id v.id) db.users i.given_ids)
        (rw new_id (omega arith), tt);
  distinct_ids = IsDistinct-append db.users u i.distinct_ids (
      rw new_id (
        All-map (λ v. IsGiven db.next_id v.id) (λ v. pos db.next_id ≢ v.id)
          (λ v. IsGiven-ne db.next_id v.id) db.users i.given_ids));
  next_pos = omega (arith, i.next_pos);
}

pub create_admin-IsIntact :
    (db : Database) (email password : Text)
    → IsIntact db
    → IsIntact (create_admin db email password).0
unfolding create_admin create_admin_user new_admin
create_admin-IsIntact db email password i =
    insert_row-IsIntact db _ _ i (to_lower-IsLower email) refl

-- The row as the update leaves it.
abbrev pub verified : ℕ → Bool → Bool → ℤ → AuthUser → AuthUser
verified now email_verified phone_verified user_id u =
    if same_id u.id user_id
    then record u {
      email_verified = email_verified;
      phone_verified = phone_verified;
      updated_at = now;
    }
    else u

same_id_iff : (a b : ℤ) → (same_id a b ≡ true) ↔ (a ≡ b)
same_id_iff (pos a) (pos b) = ground (arith, nat_beq_iff a b)
same_id_iff (pos a) (negsuc b) = ground arith
same_id_iff (negsuc a) (pos b) = ground arith
same_id_iff (negsuc a) (negsuc b) = ground (arith, nat_beq_iff a b)

module _ (now : ℕ) (email_verified phone_verified : Bool) (user_id : ℤ) where
  set_verified-rows :
      (users : List AuthUser)
      → (set_verified now email_verified phone_verified user_id users).0
        ≡ map (verified now email_verified phone_verified user_id) users
  unfolding set_verified
  set_verified-rows [] = refl
  set_verified-rows (u ∷ users) = elim (Bool-cases (same_id u.id user_id)) [
    | inl same ↦ rw (same, set_verified-rows users)
    | inr other ↦ rw (other, set_verified-rows users)
  ]

  set_verified-count :
      (users : List AuthUser)
      → (0 < (set_verified now email_verified phone_verified user_id users).1)
        ↔ Any (λ u. u.id ≡ user_id) users
  unfolding set_verified
  set_verified-count [] = ((λ h. absurd (omega arith)), λ h. absurd h)
  set_verified-count (u ∷ users) = elim (Bool-cases (same_id u.id user_id)) [
    | inl same ↦ rw same ((λ _. inl ((same_id_iff u.id user_id).0 same)), λ _. omega arith)
    | inr other ↦ rw other (
      (λ h. inr ((set_verified-count users).0 h)),
      λ found. elim found [
        | inl here ↦ absurd (cc (other, (same_id_iff u.id user_id).1 here))
        | inr later ↦ (set_verified-count users).1 later
      ],
    )
  ]

  abbrev row : AuthUser → AuthUser
  row = verified now email_verified phone_verified user_id

  row-id : (u : AuthUser) → (row u).id ≡ u.id
  row-id u = elim (Bool-cases (same_id u.id user_id)) [ inl e ↦ rw e refl | inr e ↦ rw e refl ]

  row-email : (u : AuthUser) → (row u).email ≡ u.email
  row-email u = elim (Bool-cases (same_id u.id user_id)) [ inl e ↦ rw e refl | inr e ↦ rw e refl ]

  All-rows :
      (P : AuthUser → Type 0)
      → ((u : AuthUser) → P u → P (row u))
      → (users : List AuthUser) → All P users
      → All P (map row users)
  All-rows P keep [] a = tt
  All-rows P keep (u ∷ users) (h, a) = (keep u h, All-rows P keep users a)

  IsDistinct-rows : (users : List AuthUser) → IsDistinct users → IsDistinct (map row users)
  IsDistinct-rows [] d = tt
  IsDistinct-rows (u ∷ users) (h, d) = (
    All-rows (λ v. v.id ≢ (row u).id) (λ v away e. away (sym (row-id v) ∙ e)) users
        (rw (row-id u) h),
    IsDistinct-rows users d,
  )

updated-IsIntact :
    (db : Database) (user_id : ℤ) (email_verified phone_verified : Bool) (users : List AuthUser)
    → IsIntact db
    → users ≡ map (verified db.now email_verified phone_verified user_id) db.users
    → IsIntact (record db { users = users })
updated-IsIntact db user_id email_verified phone_verified users i same =
    let set_row = verified db.now email_verified phone_verified user_id in
    let keep = All-rows db.now email_verified phone_verified user_id in
    record {
      lower_emails = rw same (
          keep (λ u. IsLower u.email)
            (λ u h. rw (row-email db.now email_verified phone_verified user_id u) h) db.users
            i.lower_emails);
      given_ids = rw same (
          keep (λ u. IsGiven db.next_id u.id)
            (λ u h. rw (row-id db.now email_verified phone_verified user_id u) h) db.users
            i.given_ids);
      distinct_ids =
          rw same
            (IsDistinct-rows db.now email_verified phone_verified user_id db.users i.distinct_ids);
      next_pos = i.next_pos;
    }

no_rows_unless : (n : ℕ) → ((if n == 0 then some (sentinel no_rows) else none) ≡ none) ↔ (0 < n)
no_rows_unless n = ground arith

rows_or_none :
    (n : ℕ)
    → ((if n == 0 then some (sentinel no_rows) else none) ≡ none)
      ⊎ ((if n == 0 then some (sentinel no_rows) else none) ≡ some (sentinel no_rows))
rows_or_none n = ground arith

abbrev Describes : Database → ℤ → Bool → Bool → Database × Option GoError → Type 0
Describes db user_id email_verified phone_verified (after, err) =
    (after.users ≡ map (verified db.now email_verified phone_verified user_id) db.users)
    × ((err ≡ none) ↔ Any (λ u. u.id ≡ user_id) db.users)
    × ((err ≡ none) ⊎ (err ≡ some (sentinel no_rows)))
    × IsIntact after

describe :
    (db : Database) (user_id : ℤ) (email_verified phone_verified : Bool)
    → IsIntact db
    → Describes db user_id email_verified phone_verified
        (update_unless none db user_id email_verified phone_verified)
unfolding update_unless
describe db user_id email_verified phone_verified i =
    let rows = set_verified-rows db.now email_verified phone_verified user_id db.users in
    let count = set_verified-count db.now email_verified phone_verified user_id db.users in
    let (succeeds, counted) =
      no_rows_unless (set_verified db.now email_verified phone_verified user_id db.users).1 in
    (
      rows,
      ((λ e. count.0 (succeeds e)), λ found. counted (count.1 found)),
      rows_or_none _,
      updated-IsIntact db user_id email_verified phone_verified _ i rows,
    )

-- What an update of the verification does on an intact table whose connection works: it succeeds
-- exactly if somebody has the identity, and fails with pgx.ErrNoRows otherwise; the flags and the
-- time of that user's row are set, every other row stays as it is; and the table stays intact.
pub update_verification_status-rows :
    (db : Database) (user_id : ℤ) (email_verified phone_verified : Bool)
    → IsIntact db
    → db.fault ≡ none
    → let (after, err) = update_verification_status db user_id email_verified phone_verified in
      (after.users ≡ map (verified db.now email_verified phone_verified user_id) db.users)
      × ((err ≡ none) ↔ Any (λ u. u.id ≡ user_id) db.users)
      × ((err ≡ none) ⊎ (err ≡ some (sentinel no_rows)))
      × IsIntact after
unfolding update_verification_status
update_verification_status-rows db user_id email_verified phone_verified i up =
    subst (Describes db user_id email_verified phone_verified)
      (sym (ap (λ fault. update_unless fault db user_id email_verified phone_verified) up))
      (describe db user_id email_verified phone_verified i)
