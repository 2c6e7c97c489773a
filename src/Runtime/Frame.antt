-- ===== src/Runtime/Frame.antt =====
-- Which calls leave the lockdown and the audit log as they were.
use panel_agent.Common.{ℕ, ◌≡◌, refl, ◌∙◌, ap, Bool, Option, List}
use panel_agent.Runtime.{
  Agent, M, ◌>>=◌, pure, throw, Outcome, ok, err, panicked, ask, tell, refuse_if, or_throw,
  from_outcome, when, ignore, gets_app, gets_db, modify_db, modify_app, catch, map_err, Db,
  AuditRow, panic_unless,
}
use panel_agent.State.{AppState, LockdownReason}

abbrev pub guard : AppState → Bool × (Option LockdownReason × ℕ)
guard a = (a.lockdown, (a.lockdown_reason, a.last_heartbeat))

abbrev pub kept : {W : Type 0} → Agent W → (Bool × (Option LockdownReason × ℕ)) × List AuditRow
kept s = (guard s.app, s.db.audit_log)

-- The call leaves the lockdown, its reason, the last heartbeat and the audit log as they were, however
-- it ends.
unfoldable pub Keeps : {W E A : Type 0} → M W E A → Type 0
Keeps {W} m = (s : Agent W) → kept (m s).1 ≡ kept s

module _ {W E : Type 0} where
  bind_pair :
      {A B : Type 0} (p : Outcome E A × Agent W) (f : A → M W E B)
      → ((a : A) → Keeps (f a))
      → (s : Agent W) → kept (((λ (_ : Agent W). p) >>= f) s).1 ≡ kept p.1
  unfolding Keeps
  bind_pair (ok a, s') f h s = h a s'
  bind_pair (err x, s') f h s = refl
  bind_pair (panicked, s') f h s = refl

  pub bind-Keeps :
      {A B : Type 0} (m : M W E A) (f : A → M W E B)
      → Keeps m
      → ((a : A) → Keeps (f a))
      → Keeps (m >>= f)
  unfolding Keeps
  bind-Keeps m f k h s = bind_pair (m s) f h s ∙ k s

  pub when-Keeps : (c : Bool) (m : M W E (Unit {0})) → Keeps m → Keeps (when c m)
  unfolding Keeps
  when-Keeps Bool.true m k s = k s
  when-Keeps Bool.false m k s = refl

module _ {W E : Type 0} (D : Type 0) where
  ignored :
      {A : Type 0} (p : Outcome E A × Agent W) (s : Agent W)
      → kept (ignore {D = D} (λ (_ : Agent W). p) s).1 ≡ kept p.1
  ignored (ok a, s') s = refl
  ignored (err x, s') s = refl
  ignored (panicked, s') s = refl

  pub ignore-Keeps : {A : Type 0} (m : M W E A) → Keeps m → Keeps (ignore {D = D} m)
  unfolding Keeps
  ignore-Keeps m k s = ignored (m s) s ∙ k s

module _ {W E D : Type 0} where
  mapped :
      {A : Type 0} (f : E → D) (p : Outcome E A × Agent W) (s : Agent W)
      → kept (map_err f (λ (_ : Agent W). p) s).1 ≡ kept p.1
  mapped f (ok a, s') s = refl
  mapped f (err x, s') s = refl
  mapped f (panicked, s') s = refl

  pub map_err-Keeps : {A : Type 0} (f : E → D) (m : M W E A) → Keeps m → Keeps (map_err f m)
  unfolding Keeps
  map_err-Keeps f m k s = mapped f (m s) s ∙ k s

module _ (W E : Type 0) where
  pub pure-Keeps : {A : Type 0} (a : A) → Keeps {W = W} {E = E} {A = A} (pure a)
  unfolding Keeps
  pure-Keeps a s = refl

  pub throw-Keeps : (A : Type 0) (x : E) → Keeps {W = W} {E = E} {A = A} (throw x)
  unfolding Keeps
  throw-Keeps A x s = refl

  pub ask-Keeps : {A : Type 0} (f : W → A × W) → Keeps {W = W} {E = E} {A = A} (ask f)
  unfolding Keeps
  ask-Keeps f s = refl

  pub tell-Keeps : (f : W → W) → Keeps {W = W} {E = E} {A = Unit {0}} (tell f)
  unfolding Keeps
  tell-Keeps f s = refl

  pub refuse_if-Keeps : (c : Bool) (x : E) → Keeps {W = W} {E = E} {A = Unit {0}} (refuse_if c x)
  unfolding Keeps
  refuse_if-Keeps c x s = refl

  pub or_throw-Keeps :
      {A : Type 0} (o : Option A) (x : E) → Keeps {W = W} {E = E} {A = A} (or_throw o x)
  unfolding Keeps
  or_throw-Keeps o x s = refl

  pub from_outcome-Keeps :
      {A : Type 0} (r : Outcome E A) → Keeps {W = W} {E = E} {A = A} (from_outcome r)
  unfolding Keeps
  from_outcome-Keeps r s = refl

  pub panic_unless-Keeps : (c : Bool) → Keeps {W = W} {E = E} {A = Unit {0}} (panic_unless c)
  unfolding Keeps
  panic_unless-Keeps c s = refl

  pub gets_app-Keeps : {A : Type 0} (f : AppState → A) → Keeps {W = W} {E = E} {A = A} (gets_app f)
  unfolding Keeps
  gets_app-Keeps f s = refl

  pub gets_db-Keeps : {A : Type 0} (f : Db → A) → Keeps {W = W} {E = E} {A = A} (gets_db f)
  unfolding Keeps
  gets_db-Keeps f s = refl

  pub modify_db-Keeps :
      (f : Db → Db)
      → ((db : Db) → (f db).audit_log ≡ db.audit_log)
      → Keeps {W = W} {E = E} {A = Unit {0}} (modify_db f)
  unfolding Keeps
  modify_db-Keeps f h s = ap (λ log. (guard s.app, log)) (h s.db)

  pub modify_app-Keeps :
      (f : AppState → AppState)
      → ((a : AppState) → guard (f a) ≡ guard a)
      → Keeps {W = W} {E = E} (modify_app f)
  unfolding Keeps
  modify_app-Keeps f h s = ap (λ g. (g, s.db.audit_log)) (h s.app)

module _ {W E : Type 0} (D : Type 0) where
  caught :
      {A : Type 0} (p : Outcome E A × Agent W) (s : Agent W)
      → kept (catch {D = D} (λ (_ : Agent W). p) s).1 ≡ kept p.1
  caught (ok a, s') s = refl
  caught (err x, s') s = refl
  caught (panicked, s') s = refl

  pub catch-Keeps : {A : Type 0} (m : M W E A) → Keeps m → Keeps (catch {D = D} m)
  unfolding Keeps
  catch-Keeps m k s = caught (m s) s ∙ k s

pub ruleset keeps = (
  modify_app-Keeps, catch-Keeps, bind-Keeps, when-Keeps, ignore-Keeps, map_err-Keeps, pure-Keeps,
  throw-Keeps, ask-Keeps, tell-Keeps, refuse_if-Keeps, or_throw-Keeps, from_outcome-Keeps,
  panic_unless-Keeps, gets_app-Keeps, gets_db-Keeps, modify_db-Keeps,
)
