-- ===== src/Store/Credentials/Used.antt =====
-- src/store.rs: a browser session authenticates as often as it is used before it expires.
use mathlib.Core.Path.{subst}
use rustypaste.Prelude.{
  sym, find_where-update_where, find_where-holds, ℕ, ◌<◌, ◌≤◌, ◌≡◌, refl, Bool, true, false, ◌&&◌,
  some, List, [], ◌∷◌, Text, text_eq, is_none, ◌==◌, ==_refl, count_where, find_where, update_where,
  Bool-cases, inl, inr, arith, is_empty, All,
}
use rustypaste.Store.Base.{
  Crypto, AuthStore, Duration, Clock, Random, ok, unix_now, expiry_from, duration_seconds,
}
use rustypaste.Store.Schema.{Db, CredentialRow, PrincipalRow}
use rustypaste.Store.Principals.{Principal, principal_from_row}
use rustypaste.Store.Credentials.{
  change_rows, browser_session, AuthenticatedPrincipal, create_browser_session, IssuedCredential,
  is_bounded,
}
use rustypaste.Store.Credentials.Alive.{session_is_stored, issued_row, issued_is_held}
use rustypaste.Store.Authenticate.{
  find_credential, is_due, rolls, rolled_row, roll, use_credential, authenticate_credential,
  authenticate_browser_session, touch_principal,
}

expiry_is_monotone :
    (timeout : Duration) (a b x y : ℕ)
    → expiry_from a timeout ≡ ok x
    → expiry_from b timeout ≡ ok y
    → a ≤ b
    → x ≤ y
unfolding expiry_from duration_seconds
expiry_is_monotone timeout a b x y h k le = ground arith

-- the principal, whenever it was seen last
abbrev pub IsSeen : Principal → Principal → Type 0
IsSeen p q = q ≡ record p { last_seen_at = q.last_seen_at }

touched-IsSeen :
    (now : ℕ) (r : PrincipalRow) (p q : Principal)
    → principal_from_row r ≡ ok q
    → IsSeen p q
    → (q' : Principal) × (principal_from_row (record r { last_seen_at = now; updated_at = now })
        ≡ ok q')
      × IsSeen p q'
unfolding principal_from_row
touched-IsSeen now r p q decoded seen =
    (record q { last_seen_at = now }, ground arith, ground arith)

-- The time is before `bound`, and the renewal fits in an i64.
abbrev pub IsInTime : AuthStore → (bound : ℕ) → Clock → Type 0
IsInTime self bound clock =
    (now : ℕ) × (renewed : ℕ) × (unix_now clock ≡ ok now)
    × (now < bound)
    × (expiry_from now self.session_idle_timeout ≡ ok renewed)

-- the database after the session was used at some times
abbrev pub used : Crypto → AuthStore → (secret : Text) → List Clock → Db → Db
used crypto self secret [] db = db
used crypto self secret (clock ∷ clocks) db =
    used crypto self secret clocks (authenticate_browser_session crypto self secret clock db).1

module _ (crypto : Crypto) (self : AuthStore) (secret : Text) (bound : ℕ) (p : Principal)
    (id : ℕ) where
  abbrev has_secret : CredentialRow → Bool
  has_secret c = text_eq c.secret_hash (crypto.sha256 secret) && is_none c.revoked_at

  -- The secret finds the credential `id`, which expires at `bound` at the earliest and is as old as its
  -- last use, and the principal.
  abbrev pub IsLive : Db → Type 0
  IsLive db =
      (c : CredentialRow) × (r : PrincipalRow) × (q : Principal) × (find_where has_secret
          db.browser_sessions.rows
        ≡ some c)
      × (find_where (λ (x : PrincipalRow). x.id == c.principal_id) db.principals.rows ≡ some r)
      × (c.id ≡ id)
      × (bound ≤ c.expires_at)
      × (expiry_from c.last_used_at self.session_idle_timeout ≡ ok c.expires_at)
      × (principal_from_row r ≡ ok q)
      × IsSeen p q

  -- The use is answered with the principal and the credential, and keeps the session live.
  abbrev Answers : Clock → Db → Type 0
  Answers clock db =
      ((a : AuthenticatedPrincipal) × ((authenticate_browser_session crypto self secret clock db).0
          ≡ ok (some a))
        × IsSeen p a.principal
        × (a.credential_id ≡ id))
      × IsLive (authenticate_browser_session crypto self secret clock db).1

  -- the database after the renewal of a credential
  abbrev rolled : (now renewed credential_id : ℕ) → Db → Db
  rolled now renewed credential_id =
      change_rows browser_session (update_where (rolls credential_id now) (rolled_row now renewed))

  rolled_is_found :
      (now renewed : ℕ) (c : CredentialRow) (db : Db)
      → find_where has_secret db.browser_sessions.rows ≡ some c
      → is_due now c.last_used_at ≡ true
      → find_where has_secret (rolled now renewed c.id db).browser_sessions.rows
        ≡ some (rolled_row now renewed c)
  rolled_is_found now renewed c db held due =
      let moved =
        find_where-update_where has_secret (rolls c.id now) (rolled_row now renewed)
          db.browser_sessions.rows c
          (λ x. elim (Bool-cases (rolls c.id now x)) [
            | inl hit ↦ ground arith
            | inr other ↦ ground arith
          ])
          held in
      ground
        (arith, moved, ==_refl c.id, find_where-holds has_secret db.browser_sessions.rows c held)

  rolled-IsLive :
      (now renewed : ℕ) (c : CredentialRow) (r : PrincipalRow) (q : Principal) (db : Db)
      → find_where has_secret db.browser_sessions.rows ≡ some c
      → find_where (λ (x : PrincipalRow). x.id == c.principal_id) db.principals.rows ≡ some r
      → c.id ≡ id
      → bound ≤ c.expires_at
      → expiry_from c.last_used_at self.session_idle_timeout ≡ ok c.expires_at
      → principal_from_row r ≡ ok q
      → IsSeen p q
      → is_due now c.last_used_at ≡ true
      → expiry_from now self.session_idle_timeout ≡ ok renewed
      → IsLive (rolled now renewed c.id db)
        × IsLive (touch_principal now r.id (rolled now renewed c.id db))
  rolled-IsLive now renewed c r q db held joined same later old decoded seen due fits =
      let found = rolled_is_found now renewed c db held due in
      let grown =
        expiry_is_monotone self.session_idle_timeout c.last_used_at now c.expires_at renewed old
          fits (ground arith) in
      let by_id = λ (x : PrincipalRow). x.id == c.principal_id in
      let touched =
        find_where-update_where by_id (λ (x : PrincipalRow). x.id == r.id)
          (λ (x : PrincipalRow). record x { last_seen_at = now; updated_at = now })
          db.principals.rows r
          (λ (x : PrincipalRow). elim (Bool-cases (x.id == r.id)) [
            | inl hit ↦ ground arith
            | inr other ↦ ground arith
          ])
          joined in
      let (q', decoded', seen') = touched-IsSeen now r p q decoded seen in
      (
        (rolled_row now renewed c, r, q, found, joined, same, ground arith, fits, decoded, seen),
        (
          rolled_row now renewed c,
          record r { last_seen_at = now; updated_at = now },
          q',
          found,
          ground (arith, touched, ==_refl r.id),
          same,
          ground arith,
          fits,
          decoded',
          seen',
        ),
      )

  use_credential-Answers :
      (clock : Clock) (db : Db)
      → is_empty secret ≡ false
      → IsInTime self bound clock
      → IsLive db
      → Answers clock db
  unfolding authenticate_browser_session authenticate_credential find_credential use_credential roll
  use_credential-Answers clock db given in_time live =
      let (now, renewed, read, early, fits) = in_time in
      let (c, r, q, held, joined, same, later, old, decoded, seen) = live in
      elim (Bool-cases (is_due now c.last_used_at)) [
        | inr undue ↦ (
          (
            record { credential_id = c.id; expires_at = c.expires_at; principal = q },
            ground arith,
            seen,
            same,
          ),
          let unchanged : (authenticate_browser_session crypto self secret clock db).1 ≡ db =
                ground arith in
              subst IsLive (sym unchanged) live,
        )
        | inl due ↦
            let (only_rolled, touched) =
              rolled-IsLive now renewed c r q db held joined same later old decoded seen due fits in
            let out = authenticate_browser_session crypto self secret clock db in
            elim (Bool-cases (count_where (rolls c.id now) db.browser_sessions.rows == 1)) [
              | inl one ↦
                  let left : out.1 ≡ touch_principal now r.id (rolled now renewed c.id db) =
                    ground arith in
                  (
                    (
                      record { credential_id = c.id; expires_at = renewed; principal = q },
                      ground arith,
                      seen,
                      same,
                    ),
                    subst IsLive (sym left) touched,
                  )
              | inr several ↦
                  let left : out.1 ≡ rolled now renewed c.id db = ground arith in
                  (
                    (
                      record { credential_id = c.id; expires_at = c.expires_at; principal = q },
                      ground arith,
                      seen,
                      same,
                    ),
                    subst IsLive (sym left) only_rolled,
                  )
            ]
      ]

  used-IsLive :
      (clocks : List Clock) (db : Db)
      → is_empty secret ≡ false
      → All (IsInTime self bound) clocks
      → IsLive db
      → IsLive (used crypto self secret clocks db)
  used-IsLive [] db given in_time live = live
  used-IsLive (clock ∷ clocks) db given (now, later) live =
      let (answered, kept) = use_credential-Answers clock db given now live in
      used-IsLive clocks (authenticate_browser_session crypto self secret clock db).1 given later
        kept

-- The secret authenticates as the principal, whenever that was seen last, and as the credential.
abbrev pub AuthenticatesAs :
    Crypto → AuthStore → (secret : Text) → Clock → Db → Principal → (credential_id : ℕ) → Type 0
AuthenticatesAs crypto self secret clock db p credential_id =
    (a : AuthenticatedPrincipal) × ((authenticate_browser_session crypto self secret clock db).0
      ≡ ok (some a))
    × IsSeen p a.principal
    × (a.credential_id ≡ credential_id)

-- A browser session that is issued to a principal with fewer than 32 live ones authenticates its
-- secret, unless that is empty, at any time before the expiry that it was issued with, however often and
-- at whatever such times, in whatever order, it was used before: as the credential that was issued, and
-- as the principal, of which only the time that it was last seen may have changed. At each of these
-- times the renewal of the expiry has to fit in an i64.
pub issued_session_authenticates :
    (crypto : Crypto) (self : AuthStore) (principal_id : ℕ) (random : Random) (clock clock' : Clock)
    (now : ℕ) (db : Db) (issued : IssuedCredential) (r : PrincipalRow) (p : Principal)
    (clocks : List Clock)
    → unix_now clock ≡ ok now
    → (create_browser_session crypto self principal_id random clock db).0 ≡ ok issued
    → is_empty issued.secret ≡ false
    → count_where (is_bounded browser_session principal_id now) db.browser_sessions.rows < 32
    → find_where (λ q. q.id == principal_id) db.principals.rows ≡ some r
    → principal_from_row r ≡ ok p
    → All (IsInTime self issued.expires_at) clocks
    → IsInTime self issued.expires_at clock'
    → AuthenticatesAs crypto self issued.secret clock'
        (used crypto self issued.secret clocks
          (create_browser_session crypto self principal_id random clock db).1)
        p
        issued.id
issued_session_authenticates crypto self principal_id random clock clock' now db issued r p clocks
      read made given few found decoded in_time at_last =
    let after = (create_browser_session crypto self principal_id random clock db).1 in
    let (new, rows, principals, expiry, id) =
      session_is_stored crypto self principal_id random clock now db issued read made in
    let row = issued_row crypto self principal_id random clock now db issued in
    let held = issued_is_held crypto self principal_id random clock now db issued read made few in
    let live : IsLive crypto self issued.secret issued.expires_at p issued.id after = (
      row,
      r,
      p,
      held,
      ground (arith, principals, found),
      sym id,
      ground arith,
      expiry,
      decoded,
      refl,
    ) in
    let still =
      used-IsLive crypto self issued.secret issued.expires_at p issued.id clocks after given in_time
        live in
    (use_credential-Answers crypto self issued.secret issued.expires_at p issued.id clock'
      (used crypto self issued.secret clocks after) given at_last still).0
