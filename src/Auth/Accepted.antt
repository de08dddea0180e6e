-- ===== src/Auth/Accepted.antt =====
-- src/auth.rs and its clients: what a chain of fallible steps that accepts says of each step.
use rustypaste.Prelude.{◌≡◌, inl, inr, arith}
use rustypaste.Store.Base.{Result-cases, ok}
use rustypaste.Store.Schema.{Db, Tx}
use rustypaste.Auth.Request.{Reply-cases, accepted, Web, ◌>>=◌, from_store}

pub bind_accepted :
    {A B : Type 0} (m : Web A) (f : A → Web B) (db : Db) (b : B)
    → ((m >>= f) db).0 ≡ accepted b
    → (a : A) × ((m db).0 ≡ accepted a) × ((f a (m db).1).0 ≡ accepted b)
bind_accepted m f db b h = elim (Reply-cases (m db).0) [
  | inl (a, e) ↦ (a, e, ground arith)
  | inr (e, failed) ↦ absurd (ground arith)
]

pub from_store-accepted :
    {A : Type 0} (m : Tx A) (db : Db) (a : A)
    → (from_store m db).0 ≡ accepted a
    → ((m db).0 ≡ ok a) × ((from_store m db).1 ≡ (m db).1)
from_store-accepted m db a h = elim (Result-cases (m db).0) [
  | inl (b, e) ↦ (ground arith, ground arith)
  | inr (e, failed) ↦ absurd (ground arith)
]

pub from_store-db : {A : Type 0} (m : Tx A) (db : Db) → (from_store m db).1 ≡ (m db).1
from_store-db m db = elim (Result-cases (m db).0) [
  | inl (a, e) ↦ ground arith
  | inr (e, failed) ↦ ground arith
]
