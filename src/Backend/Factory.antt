-- ===== src/Backend/Factory.antt =====
-- src/libdbo_backend.c: libdbo_backend_factory_get_backend and libdbo_backend_factory_shutdown. The
-- functions libdbo_backend_*_new_handle of the backends that are compiled in are an argument.
use dbo.Prelude.{
  Option, none, some, Status, ok, error_unknown, is_ok, if◌then◌else◌, Outcome, done, ◌>>=◌,
}
use dbo.Prelude.Text.{Text, codes, same_text, Memory, allocate}
use dbo.Backend.Functions.{Handle, Answer}
use dbo.Backend
use dbo.Backend.{Backend, zero_backend}

-- libdbo_backend_*_new_handle; NULL where memory is exhausted
abbrev pub Maker : Type 0 → Type 0 → Type 0
Maker Data Rows = Memory → Option (Handle Data Rows) × Memory

-- The backends that are compiled in: HAVE_SQLITE3, HAVE_COUCHDB and HAVE_MYSQL.
pub record Makers (Data Rows : Type 0) : Type 0 where
  pub sqlite : Option (Maker Data Rows)
  pub couchdb : Option (Maker Data Rows)
  pub mysql : Option (Maker Data Rows)

module _ {Data Rows : Type 0} where
  -- What a backend is given once it is allocated and has its name; it has no handle so far, and
  -- `act` is the function that is called on it at the end.
  unfoldable pub equip :
      (Option (Backend Data Rows) → Answer (Backend Data Rows))
      → Maker Data Rows
      → Option (Backend Data Rows)
      → Memory
      → Outcome (Status × Option (Backend Data Rows) × Memory)
  unfolding Backend.set_handle
  equip act maker b m =
      let held = Backend.set_handle b ((maker m).0) in
      if is_ok (held.0)
      then act (held.1) >>= (λ r. done (r.0, r.1, (maker m).1))
      else done (error_unknown, held.1, (maker m).1)

  -- `!(backend = libdbo_backend_new()) || libdbo_backend_set_name(backend, name)
  --  || libdbo_backend_set_handle(backend, libdbo_backend_*_new_handle()) || act(backend)`
  unfoldable pub build :
      (Option (Backend Data Rows) → Answer (Backend Data Rows))
      → Text
      → Maker Data Rows
      → Memory
      → Outcome (Status × Option (Backend Data Rows) × Memory)
  unfolding Backend.set_name equip
  build act name maker m =
      if (allocate m).0
      then Backend.set_name (some zero_backend) (some name) ((allocate m).1) >>= (λ r.
        if is_ok (r.0) then equip act maker (r.1) (r.2) else done (error_unknown, r.1, r.2))
      else done (error_unknown, none, (allocate m).1)

  -- The branch of libdbo_backend_factory_get_backend for one name.
  unfoldable pub get_named :
      Text → Maker Data Rows → Memory → Outcome (Option (Backend Data Rows) × Memory)
  unfolding build Backend.free
  get_named name maker m = build Backend.initialize name maker m >>= (λ r.
      if is_ok (r.0) then done (r.1, r.2) else Backend.free (r.1) >>= (λ d. done (none, r.2)))

  -- A branch that is compiled in and has the name, or else the rest.
  unfoldable pub branch :
      Text
      → Option (Maker Data Rows)
      → Text
      → Memory
      → Outcome (Option (Backend Data Rows) × Memory)
      → Outcome (Option (Backend Data Rows) × Memory)
  unfolding get_named
  branch name none given m rest = rest
  branch name (some maker) given m rest =
      if same_text given name then get_named name maker m else rest

  -- libdbo_backend_factory_get_backend
  unfoldable pub get_backend :
      Makers Data Rows → Option Text → Memory → Outcome (Option (Backend Data Rows) × Memory)
  get_backend makers none m = done (none, m)
  get_backend makers (some given) m = branch (codes "sqlite") makers.sqlite given m (
      branch (codes "couchdb") makers.couchdb given m
        (branch (codes "mysql") makers.mysql given m (done (none, m))))

  -- One backend of libdbo_backend_factory_shutdown: `ret` is kept or becomes the error.
  unfoldable pub shutdown_one :
      Text → Option (Maker Data Rows) → Status × Memory → Outcome (Status × Memory)
  unfolding build Backend.free
  shutdown_one name none (ret, m) = done (ret, m)
  shutdown_one name (some maker) (ret, m) = build Backend.shutdown name maker m >>= (λ r.
      Backend.free (r.1) >>= (λ d. done ((if is_ok (r.0) then ret else error_unknown), r.2)))

  -- libdbo_backend_factory_shutdown
  unfoldable pub factory_shutdown : Makers Data Rows → Memory → Outcome (Status × Memory)
  unfolding shutdown_one
  factory_shutdown makers m =
      shutdown_one (codes "sqlite") makers.sqlite (ok, m)
      >>= shutdown_one (codes "couchdb") makers.couchdb
      >>= shutdown_one (codes "mysql") makers.mysql
