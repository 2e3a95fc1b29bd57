-- ===== src/Sql/Laws.antt =====
-- What every statement and every transaction keeps, whatever errors the engine reports.
use botfam.Base.{
  ◌≡◌, refl, Bool, true, false, Error, Result, ok, err, Exec, arith, inl, inr, Bool-cases, continue,
  pure, raise, ◌>>=◌, if◌then◌else◌,
}
use botfam.Sql.{Env, World, faulty, skip, finish, statement, end_transaction, transaction}

-- `m` keeps `P` of the tables, whether it returns or reports an error.
pub record Keeps {T A : Type 0} (P : T → Type 0) (m : Exec (World T) A) : Type 0 where
  pub at : (w : World T) → P w.tables → P (m w).1.tables

module _ {T A : Type 0} (P : T → Type 0) where
  end_transaction-P :
      (old : T) (r : Result A) (w : World T)
      → P old
      → P w.tables
      → P (end_transaction old r w).1.tables
  end_transaction-P old (ok a) w ho h = elim (Bool-cases (faulty w.faults)) [
    | inl e ↦ rw e ho
    | inr e ↦ rw e h
  ]
  end_transaction-P old (err e) w ho h = ho

module _ {T A : Type 0} {P : T → Type 0} where
  finish-P :
      (r : Result (A × T)) (w : World T)
      → P w.tables
      → ((a : A) (t : T) → r ≡ ok (a, t) → P t)
      → P (finish r w).1.tables
  finish-P (ok (a, t)) w h k = k a t refl
  finish-P (err e) w h k = h

  pub Keeps-statement :
      (f : Env → T → Result (A × T))
      → ((env : Env) (t : T) (a : A) (t' : T) → P t → f env t ≡ ok (a, t') → P t')
      → Keeps P (statement f)
  unfolding statement
  Keeps-statement f k = record {
    at = λ w h. elim (Bool-cases (faulty w.faults)) [
      | inl e ↦ rw e h
      | inr e ↦ rw e (finish-P (f w.env w.tables) (skip w) h (λ a t. k w.env w.tables a t h))
    ];
  }

  pub Keeps-transaction : (m : Exec (World T) A) → Keeps P m → Keeps P (transaction m)
  unfolding transaction
  Keeps-transaction m k = record {
    at = λ w h. elim (Bool-cases (faulty w.faults)) [
      | inl e ↦ rw e h
      | inr e ↦
          rw e (let (r, w') = m (skip w) in end_transaction-P P w.tables r w' h (k.at (skip w) h))
    ];
  }

module _ {T A : Type 0} {P : T → Type 0} where
  pub Keeps-pure : (a : A) → Keeps P (pure a)
  Keeps-pure a = record { at = λ w h. h }

  pub Keeps-raise : (e : Error) → Keeps P (raise {A = A} e)
  Keeps-raise e = record { at = λ w h. h }

  pub Keeps-if :
      (b : Bool) (m n : Exec (World T) A) → Keeps P m → Keeps P n → Keeps P (if b then m else n)
  Keeps-if true m n km kn = km
  Keeps-if false m n km kn = kn

module _ {T A B : Type 0} {P : T → Type 0} where
  pub continue-P :
      (f : A → Exec (World T) B) (r : Result A) (w : World T)
      → P w.tables
      → ((a : A) → Keeps P (f a))
      → P (continue r f w).1.tables
  continue-P f (ok a) w h k = (k a).at w h
  continue-P f (err e) w h k = h

  pub Keeps-bind :
      (m : Exec (World T) A) (f : A → Exec (World T) B)
      → Keeps P m
      → ((a : A) → Keeps P (f a))
      → Keeps P (m >>= f)
  Keeps-bind m f km kf = record {
    at = λ w h. let (r, w') = m w in continue-P f r w' (km.at w h) kf;
  }

-- A transaction that reports an error leaves the tables as they were.
pub transaction_atomic :
    {T A : Type 0} (m : Exec (World T) A) (w : World T) (e : Error)
    → (transaction m w).0 ≡ err e
    → (transaction m w).1.tables ≡ w.tables
unfolding transaction
transaction_atomic m w e h = ground arith
