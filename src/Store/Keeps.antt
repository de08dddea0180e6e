-- ===== src/Store/Keeps.antt =====
-- Invariants of the calls in src/store.rs: one rule for each way to build a call.
use rustypaste.Prelude.{
  ◌≡◌, refl, any, Bool-cases, inl, inr, Bool, true, false, Option, none, some, if◌then◌else◌,
}
use rustypaste.Store.Base.{StoreError, Result, ok, err}
use rustypaste.Store.Schema.{
  Db, Tx, Table, insert_row, append_row, ◌>>=◌, ◌>>◌, pure, raise, lift, gets, modify, transaction,
  with_option,
}

-- `m` keeps `P`, whether it answers a value or an error
pub record Keeps {A : Type 0} (P : Db → Type 0) (m : Tx A) : Type 0 where
  pub at : (db : Db) → P db → P (m db).1

module _ {A : Type 0} {P : Db → Type 0} where
  pub Keeps-pure : (a : A) → Keeps P (pure a)
  Keeps-pure a = record { at = λ db h. h }

  pub Keeps-raise : (e : StoreError) → Keeps P (raise {A = A} e)
  Keeps-raise e = record { at = λ db h. h }

  pub Keeps-lift : (r : Result A) → Keeps P (lift r)
  Keeps-lift r = record { at = λ db h. h }

  pub Keeps-gets : (f : Db → A) → Keeps P (gets f)
  Keeps-gets f = record { at = λ db h. h }

  pub Keeps-if : (b : Bool) (m n : Tx A) → Keeps P m → Keeps P n → Keeps P (if b then m else n)
  Keeps-if true m n km kn = km
  Keeps-if false m n km kn = kn

  pub Keeps-transaction : (m : Tx (Result A)) → Keeps P m → Keeps P (transaction m)
  Keeps-transaction m km = record { at = λ db h. go (m db).0 db (m db).1 h (km.at db h) }
    where
      go :
          (r : Result (Result A)) (db db' : Db)
          → P db
          → P db'
          → P (elim r as (λ _. Result A × Db) [ ok q ↦ (q, db') | err e ↦ (err e, db) ]).1
      go (ok q) db db' h k = k
      go (err e) db db' h k = h

pub Keeps-option {ℓ} :
    {X : Type ℓ} {A : Type 0} {P : Db → Type 0} (o : Option X) (m : Tx A) (f : X → Tx A)
    → Keeps P m
    → ((x : X) → Keeps P (f x))
    → Keeps P (with_option o m f)
Keeps-option none m f km kf = km
Keeps-option (some x) m f km kf = kf x

pub Keeps-modify :
    {P : Db → Type 0} (f : Db → Db) → ((db : Db) → P db → P (f db)) → Keeps P (modify f)
Keeps-modify f k = record { at = k }

pub Keeps-bind :
    {A B : Type 0} {P : Db → Type 0} (m : Tx A) (f : A → Tx B)
    → Keeps P m
    → ((a : A) → Keeps P (f a))
    → Keeps P (m >>= f)
Keeps-bind {A} {B} {P} m f km kf = record { at = λ db h. go (m db).0 (m db).1 (km.at db h) }
  where
    go :
        (r : Result A) (db : Db)
        → P db
        → P (elim r as (λ _. Result B × Db) [ ok a ↦ f a db | err e ↦ (err e, db) ]).1
    go (ok a) db h = (kf a).at db h
    go (err e) db h = h

pub Keeps-then :
    {B : Type 0} {P : Db → Type 0} (m : Tx (Unit {0})) (k : Tx B)
    → Keeps P m
    → Keeps P k
    → Keeps P (m >> k)
Keeps-then m k km kk = Keeps-bind m (λ _. k) km (λ _. kk)

-- The rest of the call may use that `r` is no error.
pub Keeps-bind-lift :
    {A B : Type 0} {P : Db → Type 0} (r : Result A) (f : A → Tx B)
    → ((a : A) → r ≡ ok a → Keeps P (f a))
    → Keeps P (lift r >>= f)
Keeps-bind-lift (ok a) f kf = record { at = λ db h. (kf a refl).at db h }
Keeps-bind-lift (err e) f kf = record { at = λ db h. h }

-- What the rest of the call reads here is what stands in the database.
pub Keeps-gets-bind :
    {A B : Type 0} {P : Db → Type 0} (g : Db → A) (f : A → Tx B)
    → ((db : Db) → P db → P (f (g db) db).1)
    → Keeps P (gets g >>= f)
Keeps-gets-bind g f k = record { at = k }

-- `Keeps-bind` at one database, where the first step keeps `P` only there.
pub bind_at :
    {A B : Type 0} {P : Db → Type 0} (m : Tx A) (f : A → Tx B) (db : Db)
    → P (m db).1
    → ((a : A) → Keeps P (f a))
    → P ((m >>= f) db).1
bind_at {A} {B} {P} m f db h kf = go (m db).0 (m db).1 h
  where
    go :
        (r : Result A) (db : Db)
        → P db
        → P (elim r as (λ _. Result B × Db) [ ok a ↦ f a db | err e ↦ (err e, db) ]).1
    go (ok a) db h = (kf a).at db h
    go (err e) db h = h

-- The new row may be taken to clash with no other.
pub Keeps-insert :
    {R A : Type 0} {P : Db → Type 0} (clash : R → R → Bool) (row : R) (table : Db → Table R)
    (put : Table R → Db → Db) (again : Tx A) (k : Tx A)
    → Keeps P again
    → ((db : Db)
        → any (clash row) (table db).rows ≡ false
        → P db
        → P (put (append_row row (table db)) db))
    → Keeps P k
    → Keeps P (
        gets (λ db. insert_row clash row (table db)) >>= λ changed.
        with_option changed again (λ t. modify (put t) >> k))
Keeps-insert clash row table put again k ka kp kk = record {
  at = λ db h. elim (Bool-cases (any (clash row) (table db).rows)) [
    | inl old ↦ rw old (ka.at db h)
    | inr new ↦ rw new (kk.at _ (kp db new h))
  ];
}

pub ruleset keeps_rules = (
  Keeps-pure, Keeps-raise, Keeps-lift, Keeps-gets, Keeps-if, Keeps-option, Keeps-transaction,
  Keeps-modify, Keeps-bind, Keeps-then,
)
