-- ===== src/Repository/Driver/Laws.antt =====
-- Relations between the tables before and after the calls of the driver.
use golang_rest_api_template.Base.{
  ◌≡◌, refl, sym, ap, ◌∙◌, Option, none, some, Option-cases, Bool-cases, inl, inr, ◌⊎◌, arith,
}
use golang_rest_api_template.Result.{ok}
use golang_rest_api_template.Repository.Tables.{Tables, Statement}
use golang_rest_api_template.Repository.Driver.{
  Fault, Driver, DriverLaws, answer, exec, answer_tx, exec_tx, begin_tx, commit,
}

module _ {W : Type 0} (d : Driver W) (laws : DriverLaws d) where
  module _ {A : Type 0} (stmt : Statement A) where
    answer_cases :
        (o : Option Fault) (w : W)
        → (d.tables (answer d stmt o w).1 ≡ d.tables w)
          ⊎ (d.tables (answer d stmt o w).1 ≡ (stmt (d.tables w)).1)
    answer_cases none w = inr (laws.tables-put _ w)
    answer_cases (some f) w = elim (Bool-cases f.lands) [
      | inl e ↦ rw e (inr (laws.tables-put _ w))
      | inr e ↦ rw e (inl refl)
    ]

    -- A call leaves the tables alone or applies the statement.
    pub exec_cases :
        (w : W)
        → (d.tables (exec d stmt w).1 ≡ d.tables w)
          ⊎ (d.tables (exec d stmt w).1 ≡ (stmt (d.tables w)).1)
    unfolding exec
    exec_cases w = rw (sym (laws.tables-fault w)) (answer_cases (d.fault w).0 (d.fault w).1)

    answer_ok :
        (o : Option Fault) (w : W) (a : A)
        → (answer d stmt o w).0 ≡ ok a
        → ((stmt (d.tables w)).0 ≡ ok a) × (d.tables (answer d stmt o w).1 ≡ (stmt (d.tables w)).1)
    answer_ok none w a e = (e, laws.tables-put _ w)
    answer_ok (some f) w a e = cc

    -- A call that succeeds has applied the statement, and returns its result.
    pub exec_ok :
        (w : W) (a : A)
        → (exec d stmt w).0 ≡ ok a
        → ((stmt (d.tables w)).0 ≡ ok a) × (d.tables (exec d stmt w).1 ≡ (stmt (d.tables w)).1)
    unfolding exec
    exec_ok w a e = rw (sym (laws.tables-fault w)) (answer_ok (d.fault w).0 (d.fault w).1 a e)

    -- A call that the driver does not fail applies the statement.
    pub exec_no_fault :
        (w : W)
        → (d.fault w).0 ≡ none
        → ((exec d stmt w).0 ≡ (stmt (d.tables w)).0)
          × (d.tables (exec d stmt w).1 ≡ (stmt (d.tables w)).1)
    unfolding exec
    exec_no_fault w e =
        rw (e, answer)
          (
            ap (λ t. (stmt t).0) (laws.tables-fault w),
            laws.tables-put _ _ ∙ ap (λ t. (stmt t).1) (laws.tables-fault w),
          )

    module _ (R : Tables → Tables → Type 0) (reflexive : (t : Tables) → R t t)
        (holds : (t : Tables) → R t (stmt t).1) where
      pub exec-respects : (w : W) → R (d.tables w) (d.tables (exec d stmt w).1)
      exec-respects w = elim (exec_cases w) [ inl e ↦ rw e (reflexive _) | inr e ↦ rw e (holds _) ]

    answer_tx_ok :
        (o : Option Fault) (t : Tables) (a : A) (t' : Tables)
        → answer_tx d stmt t o ≡ ok (a, t')
        → ((stmt t).0 ≡ ok a) × ((stmt t).1 ≡ t')
    answer_tx_ok none t a t' e = ground arith
    answer_tx_ok (some f) t a t' e = cc

    pub exec_tx_ok :
        (t : Tables) (w : W) (a : A) (t' : Tables)
        → (exec_tx d stmt t w).0 ≡ ok (a, t')
        → ((stmt t).0 ≡ ok a) × ((stmt t).1 ≡ t')
    unfolding exec_tx
    exec_tx_ok t w a t' e = answer_tx_ok (d.fault w).0 t a t' e

    pub exec_tx-keeps : (t : Tables) (w : W) → d.tables (exec_tx d stmt t w).1 ≡ d.tables w
    unfolding exec_tx
    exec_tx-keeps t w = laws.tables-fault w

  pub begin_tx-keeps : (w : W) → d.tables (begin_tx d w).1 ≡ d.tables w
  unfolding begin_tx
  begin_tx-keeps w = ground (arith, laws.tables-fault w, Option-cases (d.fault w).0)

  pub begin_tx_ok : (w : W) (t : Tables) → (begin_tx d w).0 ≡ ok t → t ≡ d.tables w
  unfolding begin_tx
  begin_tx_ok w t e = ground (arith, Option-cases (d.fault w).0)

  pub commit_cases :
      (t : Tables) (w : W)
      → (d.tables (commit d t w).1 ≡ d.tables w) ⊎ (d.tables (commit d t w).1 ≡ t)
  unfolding commit
  commit_cases t w = exec_cases (λ _. (ok tt, t)) w

  pub commit_ok :
      (t : Tables) (w : W) (a : Unit {0}) → (commit d t w).0 ≡ ok a → d.tables (commit d t w).1 ≡ t
  unfolding commit
  commit_ok t w a e = (exec_ok (λ _. (ok tt, t)) w a e).1
