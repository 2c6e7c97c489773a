-- ===== src/Runtime/Monad.antt =====
-- The monad of the handlers: state that outlives an error or a panic.
use panel_agent.Common.{Bool, true, false, not, Option, none, some, List, [], Text, if◌then◌else◌}
use panel_agent.State.{AppState}
use panel_agent.Runtime.Errors.{Outcome, ok, err, panicked}
use panel_agent.Runtime.Tables.{Db}
use panel_agent.Runtime.Interface.{Machine, Agent, Cmd, Proc, FileOp}

abbrev pub M : Type 0 → Type 0 → Type 0 → Type 0
M W E A = Agent W → Outcome E A × Agent W

module _ {W E : Type 0} where
  infixl 5 ◌>>=◌ ◌>>◌
  abbrev pub ◌>>=◌ : {A B : Type 0} → M W E A → (A → M W E B) → M W E B
  ◌>>=◌ m f s =
      let (r, s') = m s in
      elim r [ ok a ↦ f a s' | err e ↦ (err e, s') | panicked ↦ (panicked, s') ]

  abbrev pub ◌>>◌ : {A B : Type 0} → M W E A → M W E B → M W E B
  m >> k = m >>= λ _. k

  abbrev pub pure : {A : Type 0} → A → M W E A
  pure a s = (ok a, s)

  abbrev pub throw : {A : Type 0} → E → M W E A
  throw e s = (err e, s)

  -- `if refused { return Err(e) }`
  abbrev pub refuse_if : Bool → E → M W E (Unit {0})
  refuse_if c e s = (if c then err e else ok tt, s)

  -- `.ok_or(e)?`
  abbrev pub or_throw : {A : Type 0} → Option A → E → M W E A
  or_throw o e s = (elim o [ none ↦ err e | some a ↦ ok a ], s)

  abbrev pub from_outcome : {A : Type 0} → Outcome E A → M W E A
  from_outcome r s = (r, s)

  abbrev pub panic_unless : Bool → M W E (Unit {0})
  panic_unless c s = (if c then ok tt else panicked, s)

  abbrev pub gets_app : {A : Type 0} → (AppState → A) → M W E A
  gets_app f s = (ok (f s.app), s)

  abbrev pub modify_app : (AppState → AppState) → M W E (Unit {0})
  modify_app f s = (ok tt, record s { app = f s.app })

  -- A method of the state that also gives a value.
  abbrev pub state_app : {A : Type 0} → (AppState → A × AppState) → M W E A
  state_app f s = let (a, app') = f s.app in (ok a, record s { app = app' })

  abbrev pub gets_db : {A : Type 0} → (Db → A) → M W E A
  gets_db f s = (ok (f s.db), s)

  abbrev pub modify_db : (Db → Db) → M W E (Unit {0})
  modify_db f s = (ok tt, record s { db = f s.db })

  -- An operation of the machine.
  abbrev pub ask : {A : Type 0} → (W → A × W) → M W E A
  ask f s = let (a, w) = f s.world in (ok a, record s { world = w })

  abbrev pub tell : (W → W) → M W E (Unit {0})
  tell f s = (ok tt, record s { world = f s.world })

  abbrev pub when : Bool → M W E (Unit {0}) → M W E (Unit {0})
  when c m s = elim c [ true ↦ m s | false ↦ (ok tt, s) ]

  -- `if c { m } else { k }`
  abbrev pub branch : {A : Type 0} → Bool → M W E A → M W E A → M W E A
  branch c m k s = elim c [ true ↦ m s | false ↦ k s ]

module _ {W E D : Type 0} where
  -- `.ok()`, `let _ = …`: an error is dropped, a panic is not.
  abbrev pub ignore : {A : Type 0} → M W E A → M W D (Unit {0})
  ignore m s =
      let (r, s') = m s in
      elim r [ ok _ ↦ (ok tt, s') | err _ ↦ (ok tt, s') | panicked ↦ (panicked, s') ]

  -- `match m { Ok(a) => …, Err(e) => … }`: the outcome as a value.
  abbrev pub catch : {A : Type 0} → M W E A → M W D (Outcome E A)
  catch m s =
      let (r, s') = m s in
      elim r [ ok a ↦ (ok (ok a), s') | err e ↦ (ok (err e), s') | panicked ↦ (panicked, s') ]

  -- `.map_err(f)?`
  abbrev pub map_err : {A : Type 0} → (E → D) → M W E A → M W D A
  map_err f m s =
      let (r, s') = m s in
      elim r [ ok a ↦ (ok a, s') | err e ↦ (err (f e), s') | panicked ↦ (panicked, s') ]

abbrev pub proc_result : Proc → Option (Bool × Text)
proc_result Proc.failed = none
proc_result (Proc.exited success stdout) = some (success, stdout)

module _ (m : Machine) {E : Type 0} (e : E) where
  open m use {World, run, file, query_fails}

  -- `?` on a file operation, with the error that it is mapped to
  abbrev pub must_file : FileOp → M World E (Unit {0})
  must_file op = do done ← ask (file op); refuse_if (not done) e

  -- `?` on a query
  abbrev pub must_query : M World E (Unit {0})
  must_query = do fails ← ask query_fails; refuse_if fails e

  -- `?` on `.status()` or `.output()`: the success and the output
  abbrev pub must_start : Cmd → M World E (Bool × Text)
  must_start c = do p ← ask (run c); or_throw (proc_result p) e

  -- the same, and an error if the process does not succeed
  abbrev pub must_run : Cmd → M World E Text
  must_run c = do (success, stdout) ← must_start c; refuse_if (not success) e; pure stdout

abbrev pub command : Text → List Text → Cmd
command program args = record { program = program; args = args; env = []; stdin = [] }

abbrev pub command_with : Text → List Text → Text → Cmd
command_with program args stdin = record { program = program; args = args; env = []; stdin = stdin }
