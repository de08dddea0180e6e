-- ===== src/Store/Credentials/Alive.antt =====
-- src/store.rs: what `create_browser_session` leaves in the database.
use rustypaste.Prelude.{
  ℕ, ◌<◌, ◌≡◌, refl, Bool, true, false, not, ◌&&◌, none, some, List, [], ◌∷◌, ◌++◌, text_eq,
  text_eq_refl, text_eq_comm, is_none, ◌==◌, ==_refl, ltb, any, any-map, any-order_by, any_weaken,
  take_all, length-order_by, count_where, count_where-append, count_where-length, keep_where,
  find_where, find_where-keep_where-append, order_by, Bool-cases, inl, inr, arith,
}
use rustypaste.Store.Base.{
  Crypto, AuthStore, Duration, Clock, Random, Result-cases, ok, unix_now, expiry_from,
  duration_seconds, generate_secret,
}
use rustypaste.Store.Schema.{Db, CredentialRow}
use rustypaste.Store.Credentials.{
  browser_session, IssuedCredential, new_credential, is_bounded, is_newer, is_pruned, kept_ids,
  create_browser_session, create_credential, store_credential, insert_credential, prune_credentials,
  prune_rows, has_principal,
}

last_is_kept :
    (q p : CredentialRow → Bool) (rs : List CredentialRow) (row : CredentialRow)
    → q row ≡ true
    → p row ≡ true
    → any q (keep_where p (rs ++ row ∷ [])) ≡ true
last_is_kept q p [] row h k = ground arith
last_is_kept q p (r ∷ rs) row h k = ground (arith, last_is_kept q p rs row h k)

module _ (principal_id now : ℕ) (rs : List CredentialRow) (row : CredentialRow) where
  few_are_kept :
      count_where (is_bounded browser_session principal_id now) rs < 32
      → is_bounded browser_session principal_id now row ≡ true
      → any (λ id. id == row.id) (kept_ids browser_session principal_id now (rs ++ row ∷ [])) ≡ true
  unfolding kept_ids
  few_are_kept few bounded =
      let p = is_bounded browser_session principal_id now in
      let live = keep_where p (rs ++ row ∷ []) in
      let newest = order_by is_newer live in
      let one_id = λ (id : ℕ). id == row.id in
      let fits = take_all 32 newest (
        ground (
          arith,
          length-order_by is_newer live,
          count_where-length p (rs ++ row ∷ []),
          count_where-append p rs (row ∷ []),
        )) in
      ground (
        arith,
        fits,
        any-map one_id (λ (r : CredentialRow). r.id) newest,
        any-order_by (λ (r : CredentialRow). r.id == row.id) is_newer live,
        last_is_kept (λ (r : CredentialRow). r.id == row.id) p rs row (==_refl row.id) bounded,
      )

  issued_is_found :
      (hash : List ℕ)
      → count_where (is_bounded browser_session principal_id now) rs < 32
      → is_bounded browser_session principal_id now row ≡ true
      → any (λ r. text_eq row.secret_hash r.secret_hash) rs ≡ false
      → row.secret_hash ≡ hash
      → find_where
          (λ c. text_eq c.secret_hash hash && is_none c.revoked_at)
          (prune_rows browser_session principal_id now (rs ++ row ∷ []))
        ≡ some row
  unfolding prune_rows
  issued_is_found hash few bounded new same =
      let test = λ (c : CredentialRow). text_eq c.secret_hash hash && is_none c.revoked_at in
      let kept = kept_ids browser_session principal_id now (rs ++ row ∷ []) in
      find_where-keep_where-append test
        (λ r. not (is_pruned browser_session principal_id now kept r)) rs row
        (any_weaken test (λ r. text_eq row.secret_hash r.secret_hash) rs
          (λ r h. ground (arith, text_eq_comm row.secret_hash r.secret_hash)) new)
        (ground (arith, text_eq_refl hash)) (ground (arith, few_are_kept few bounded))

module _ (crypto : Crypto) (self : AuthStore) (principal_id : ℕ) (random : Random) (clock : Clock)
    (now : ℕ) (db : Db) (issued : IssuedCredential) where
  abbrev pub issued_row : CredentialRow
  issued_row =
      new_credential db.browser_sessions.next_id principal_id (crypto.sha256 issued.secret) none now
        issued.expires_at

  abbrev pub after : Db
  after = (create_browser_session crypto self principal_id random clock db).1

  -- what `create_browser_session` leaves when it answers
  abbrev pub Stored : Type 0
  Stored =
      (any (λ r. text_eq issued_row.secret_hash r.secret_hash) db.browser_sessions.rows ≡ false)
      × (after.browser_sessions.rows
          ≡ prune_rows browser_session principal_id now
              (db.browser_sessions.rows ++ issued_row ∷ []))
      × (after.principals ≡ db.principals)
      × (expiry_from now self.session_idle_timeout ≡ ok issued.expires_at)
      × (issued.id ≡ db.browser_sessions.next_id)

  pub session_is_stored :
      unix_now clock ≡ ok now
      → (create_browser_session crypto self principal_id random clock db).0 ≡ ok issued
      → Stored
  unfolding create_browser_session create_credential store_credential insert_credential
      prune_credentials
  session_is_stored read made = elim (Result-cases (generate_secret crypto random)) [
    | inr (e, failed) ↦ absurd (ground arith)
    | inl (secret, drawn) ↦ elim (Result-cases (expiry_from now self.session_idle_timeout)) [
      | inr (e, failed) ↦ absurd (ground arith)
      | inl (expires_at, expiry) ↦
          let row =
            new_credential db.browser_sessions.next_id principal_id (crypto.sha256 secret) none now
              expires_at in
          let clash = λ (r : CredentialRow). text_eq row.secret_hash r.secret_hash in
          elim (Bool-cases (any clash db.browser_sessions.rows)) [
            | inl taken ↦ absurd (ground arith)
            | inr new ↦ elim (Bool-cases (has_principal principal_id db)) [
              | inr unknown ↦ absurd (ground arith)
              | inl known ↦ (ground arith, ground arith, ground arith, ground arith, ground arith)
            ]
          ]
    ]
  ]

  expiry_is_later :
      (timeout : Duration) (expires_at : ℕ)
      → expiry_from now timeout ≡ ok expires_at
      → ltb now expires_at ≡ true
  unfolding expiry_from duration_seconds
  expiry_is_later timeout expires_at h = ground arith

  pub issued_is_held :
      unix_now clock ≡ ok now
      → (create_browser_session crypto self principal_id random clock db).0 ≡ ok issued
      → count_where (is_bounded browser_session principal_id now) db.browser_sessions.rows < 32
      → find_where
          (λ c. text_eq c.secret_hash (crypto.sha256 issued.secret) && is_none c.revoked_at)
          after.browser_sessions.rows
        ≡ some issued_row
  issued_is_held read made few =
      let (new, rows, principals, expiry, id) = session_is_stored read made in
      let first =
        issued_is_found principal_id now db.browser_sessions.rows issued_row
          (crypto.sha256 issued.secret) few
          (ground (
            arith,
            ==_refl principal_id,
            expiry_is_later self.session_idle_timeout issued.expires_at expiry,
          ))
          new refl in
      ground (arith, rows, first)
