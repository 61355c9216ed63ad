-- ===== src/Repository/Driver.antt =====
-- What the stores use of pgx, as a parameter: where the tables stand in the world, and which calls
-- the driver or the server fails. A failed call may have reached the server all the same.
pub mod Laws
use golang_rest_api_template.Base.{ℕ, ◌≡◌, if◌then◌else◌, Bool, Option, none, some}
use golang_rest_api_template.Result.{Result, ok, err, Io}
use golang_rest_api_template.Errors.{Cause}
use golang_rest_api_template.Repository.Tables.{Tables, Statement}

-- `lands`: the statement took effect although the caller got an error.
pub record Fault : Type 0 where
  pub reason : Cause
  pub lands : Bool

-- `fault` says what happens to the next call; `now` is the server's clock.
pub record Driver (W : Type 0) : Type 0 where
  pub tables : W → Tables
  pub put : Tables → W → W
  pub fault : W → Option Fault × W
  pub now : W → ℕ

pub record DriverLaws {W : Type 0} (d : Driver W) : Type 0 where
  pub tables-put : (t : Tables) (w : W) → d.tables (d.put t w) ≡ t
  pub tables-fault : (w : W) → d.tables (d.fault w).1 ≡ d.tables w

module _ {W : Type 0} (d : Driver W) where
  module _ {A : Type 0} where
    abbrev pub answer : Statement A → Option Fault → Io W Cause A
    answer stmt none w = ((stmt (d.tables w)).0, d.put (stmt (d.tables w)).1 w)
    answer stmt (some f) w = (err f.reason, if f.lands then d.put (stmt (d.tables w)).1 w else w)

    -- A statement outside a transaction.
    unfoldable pub exec : Statement A → Io W Cause A
    exec stmt w = answer stmt (d.fault w).0 (d.fault w).1

    abbrev pub answer_tx : Statement A → Tables → Option Fault → Result Cause (A × Tables)
    answer_tx stmt t none = elim (stmt t).0 [ ok a ↦ ok (a, (stmt t).1) | err e ↦ err e ]
    answer_tx stmt t (some f) = err f.reason

    -- A statement of a transaction, on the tables as the transaction sees them.
    unfoldable pub exec_tx : Statement A → Tables → Io W Cause (A × Tables)
    exec_tx stmt t w = (answer_tx stmt t (d.fault w).0, (d.fault w).1)

  -- `pool.Begin`: the transaction starts from the tables as they are.
  unfoldable pub begin_tx : Io W Cause Tables
  begin_tx w = elim (d.fault w).0 [
    | none ↦ (ok (d.tables w), (d.fault w).1)
    | some f ↦ (err f.reason, (d.fault w).1)
  ]

  -- `tx.Commit`; what is not committed is rolled back.
  unfoldable pub commit : Tables → Io W Cause (Unit {0})
  unfolding exec
  commit t = exec (λ _. (ok tt, t))
