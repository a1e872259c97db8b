-- ===== src/Mysql/Session.antt =====
-- src/libdbo_backend_mysql.c: the backend's state, and how statements are prepared, executed and
-- finished. What MySQL does is a parameter, `Server`; `db` is the state of a database with the
-- connection to it. The statements of Operations give no rows: mysql_stmt_result_metadata is NULL
-- for them, and __db_backend_mysql_prepare makes no output binds.
use dbo.Prelude.{
  ℕ, zero, suc, ◌-◌, Bool, true, false, Option, none, some, List, [], map, Status, ok,
  error_unknown, Outcome, done, undefined, if◌then◌else◌, ◌==◌,
}
use dbo.Prelude.Text.{Text, Memory, allocate}
use dbo.Value.{Value}
use dbo.Mysql.Bind.{Sent, Inputs}

-- MySQL, by database, SQL text and what is sent for the marks: how many marks a text has for
-- mysql_stmt_prepare, or none where it, or mysql_stmt_init, fails; what mysql_stmt_bind_param and
-- mysql_stmt_execute leave and whether they succeed; mysql_stmt_affected_rows.
pub record Server (Db : Type 0) : Type 0 where
  pub prepares : Db → Text → Option ℕ
  pub executes : Db → Text → List (ℕ × Sent) → Db × Bool
  pub affected_rows : Db → ℕ

-- struct libdbo_backend_mysql with __mysql_initialized, and the number of statements that are not
-- finished.
pub record Backend (Db : Type 0) : Type 0 where
  pub initialized : Bool
  pub db : Option Db
  pub transaction : Bool
  pub timeout : ℕ
  pub live : ℕ

-- Whether a number of allocations succeed, one after another.
unfoldable pub allocate_all : ℕ → Memory → Bool × Memory
allocate_all zero m = (true, m)
allocate_all (suc n) m =
    let rest = allocate_all n ((allocate m).1) in
    if (allocate m).0 then rest else (false, (allocate m).1)

-- The allocations for the input binds of a statement: the array, and one for each.
abbrev pub inputs_to_allocate : ℕ → ℕ
inputs_to_allocate params = if params == 0 then 0 else suc params

module _ {Db : Type 0} (e : Server Db) where
  -- __db_backend_mysql_prepare for a NULL `*statement` and a statement without rows. Where the
  -- statement cannot be allocated, `(*statement)->statement` is read of NULL.
  unfoldable pub prepare :
      Backend Db → Text → Memory → Outcome (Option (Inputs × Backend Db) × Memory)
  unfolding allocate_all
  prepare s sql m = elim s.db [
    | none ↦ done (none, m)
    | some db ↦
        if (allocate m).0
        then elim (e.prepares db sql) [
          | none ↦ done (none, (allocate m).1)
          | some params ↦
              let got = allocate_all (inputs_to_allocate params) ((allocate m).1) in
              if got.0
              then done (
                some (
                  record { params = params; bind = 0; sends = [] },
                  record s { live = suc s.live },
                ),
                got.1,
              )
              else done (none, got.1)
        ]
        else undefined
  ]

  -- What the binds send, where the variable `revision` holds a value.
  abbrev pub sent : Inputs → Value → List (ℕ × Sent)
  sent inputs revision = map (λ x. (x.0, x.1 revision)) inputs.sends

  -- __db_backend_mysql_execute of a prepared statement
  unfoldable pub execute : Backend Db → Text → Inputs → Value → Status × Backend Db
  execute s sql inputs revision = elim s.db [
    | none ↦ (error_unknown, s)
    | some db ↦
        let r = e.executes db sql (sent inputs revision) in
        ((if r.1 then ok else error_unknown), record s { db = some (r.0) })
  ]

  abbrev pub affected : Backend Db → ℕ
  affected s = elim s.db [ none ↦ 0 | some db ↦ e.affected_rows db ]

-- __db_backend_mysql_finish of a prepared statement
unfoldable pub finish : {Db : Type 0} → Backend Db → Backend Db
finish s = record s { live = s.live - 1 }
