-- ===== src/AuthServer/Steps.antt =====
-- src/auth_server.rs: handlers as sequences of store calls, one rule for each way to build one.
use rustypaste.Prelude.{
  ◌≡◌, refl, sym, ◌∙◌, ap, Bool, true, false, Option, none, some, List, [], ◌∷◌, ◌++◌, All,
  All-append, if◌then◌else◌, inl, inr, arith,
}
use rustypaste.Store.Base.{Result-cases, Crypto, AuthStore}
use rustypaste.Store.Schema.{Db, Tx}
use rustypaste.Store.OauthFlows.{ReturnUrls}
use rustypaste.Store.Calls.{Call, run, run_all, run_all-append}
use rustypaste.Auth.Request.{
  HttpError, Reply, accepted, refused, Web, ◌>>=◌, answer, from_store, if_some,
}
use rustypaste.AuthServer.Response.{from_flow_store, or_refuse}

module _ (crypto : Crypto) (urls : ReturnUrls) (self : AuthStore) (P : Call → Type 0) where
  -- Calls with `P` lead from the one database to the other.
  abbrev pub Leads : Db → Db → Type 0
  Leads db db' = (calls : List Call) × All P calls × (db' ≡ run_all crypto urls self calls db)

  pub record Steps {A : Type 0} (m : Web A) : Type 0 where
    pub at : (db : Db) → Leads db (m db).1

  pub Leads_refl : (db : Db) → Leads db db
  Leads_refl db = ([], tt, unfold run_all in refl)

  pub Leads_trans : (a b c : Db) → Leads a b → Leads b c → Leads a c
  Leads_trans a b c (first, p, e) (more, q, f) = (
    first ++ more,
    All-append P first more p q,
    f ∙ ap (run_all crypto urls self more) e ∙ sym (run_all-append crypto urls self first more a),
  )

  pub Leads-run : (c : Call) (db : Db) → P c → Leads db (run crypto urls self c db)
  Leads-run c db p = (c ∷ [], (p, tt), unfold run_all in refl)

module _ {crypto : Crypto} {urls : ReturnUrls} {self : AuthStore} {P : Call → Type 0} where
  pub Steps-answer : {A : Type 0} (r : Reply A) → Steps crypto urls self P (answer r)
  Steps-answer r = record { at = Leads_refl crypto urls self P }

  pub Steps-or_refuse :
      {A : Type 0} (e : HttpError) (o : Option A) → Steps crypto urls self P (or_refuse e o)
  Steps-or_refuse e none = record { at = Leads_refl crypto urls self P }
  Steps-or_refuse e (some a) = record { at = Leads_refl crypto urls self P }

  -- Each branch may use the test.
  pub Steps-if :
      {A : Type 0} (b : Bool) (m n : Web A)
      → (b ≡ true → Steps crypto urls self P m)
      → (b ≡ false → Steps crypto urls self P n)
      → Steps crypto urls self P (if b then m else n)
  Steps-if true m n km kn = km refl
  Steps-if false m n km kn = kn refl

  -- A step that is one call.
  pub Steps-from_store :
      {A : Type 0} (m : Tx A) (c : Call)
      → ((db : Db) → (m db).1 ≡ run crypto urls self c db)
      → P c
      → Steps crypto urls self P (from_store m)
  Steps-from_store m c same p = record {
    at = λ db. elim (Result-cases (m db).0) [
      | inl (a, e) ↦ (c ∷ [], (p, tt), unfold run_all in ground (arith, same db))
      | inr (e, failed) ↦ (c ∷ [], (p, tt), unfold run_all in ground (arith, same db))
    ];
  }

  -- A step that only reads.
  pub Steps-read :
      {A : Type 0} (m : Tx A)
      → ((db : Db) → (m db).1 ≡ db)
      → Steps crypto urls self P (from_store m)
  Steps-read m same = record {
    at = λ db. elim (Result-cases (m db).0) [
      | inl (a, e) ↦ ([], tt, unfold run_all in ground (arith, same db))
      | inr (e, failed) ↦ ([], tt, unfold run_all in ground (arith, same db))
    ];
  }

  pub Steps-from_flow_store :
      {A : Type 0} (m : Tx A) (c : Call)
      → ((db : Db) → (m db).1 ≡ run crypto urls self c db)
      → P c
      → Steps crypto urls self P (from_flow_store m)
  Steps-from_flow_store m c same p = record {
    at = λ db. elim (Result-cases (m db).0) [
      | inl (a, e) ↦ (c ∷ [], (p, tt), unfold run_all in ground (arith, same db))
      | inr (e, failed) ↦ (c ∷ [], (p, tt), unfold run_all in ground (arith, same db))
    ];
  }

  pub Steps-bind :
      {A B : Type 0} (m : Web A) (f : A → Web B)
      → Steps crypto urls self P m
      → ((a : A) → Steps crypto urls self P (f a))
      → Steps crypto urls self P (m >>= f)
  Steps-bind {A = A} {B = B} m f km kf = record { at = λ db. go (m db).0 db (m db).1 (km.at db) }
    where
      go :
          (r : Reply A) (db db' : Db)
          → Leads crypto urls self P db db'
          → Leads crypto urls self P db
              (elim r as (λ _. Reply B × Db) [
                | accepted a ↦ f a db'
                | refused e ↦ (refused e, db')
              ]).1
      go (accepted a) db db' h = Leads_trans crypto urls self P db db' (f a db').1 h ((kf a).at db')
      go (refused e) db db' h = h

  -- The rest may use what the value was taken from.
  pub Steps-require :
      {A B : Type 0} (e : HttpError) (o : Option A) (f : A → Web B)
      → ((a : A) → o ≡ some a → Steps crypto urls self P (f a))
      → Steps crypto urls self P (or_refuse e o >>= f)
  Steps-require e none f kf = record { at = Leads_refl crypto urls self P }
  Steps-require e (some a) f kf = record { at = λ db. (kf a refl).at db }

  pub Steps-check :
      {A B : Type 0} (r : Reply A) (f : A → Web B)
      → ((a : A) → r ≡ accepted a → Steps crypto urls self P (f a))
      → Steps crypto urls self P (answer r >>= f)
  Steps-check (accepted a) f kf = record { at = λ db. (kf a refl).at db }
  Steps-check (refused e) f kf = record { at = Leads_refl crypto urls self P }

  pub Steps-option :
      {A B : Type 0} (o : Option A) (m : Web B) (f : A → Web B)
      → Steps crypto urls self P m
      → ((a : A) → o ≡ some a → Steps crypto urls self P (f a))
      → Steps crypto urls self P (if_some o m f)
  Steps-option none m f km kf = km
  Steps-option (some a) m f km kf = kf a refl

pub ruleset steps_rules =
    (Steps-require, Steps-check, Steps-bind, Steps-if, Steps-option, Steps-answer, Steps-or_refuse)
