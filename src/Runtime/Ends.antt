-- ===== src/Runtime/Ends.antt =====
-- Which calls end without a panic, or without an error as well, leave the state in memory as it was
-- and only add rows to the audit log; the machine and the other tables may change.
use panel_agent.Common.{
  ◌≡◌, ◌≢◌, refl, ◌∙◌, sym, ap, Bool, true, false, Option, List, [], ◌++◌, arith,
}
use mathlib.Core.List.{append_assoc}
use panel_agent.Runtime.{
  Agent, M, ◌>>=◌, pure, throw, Outcome, ok, err, panicked, ask, tell, refuse_if, or_throw, branch,
  when, ignore, catch, gets_db, modify_db, Db, AuditRow,
}

-- Rows have been added in front, where the newest rows stand; none is gone or changed.
abbrev pub Extends : Db → Db → Type 0
Extends before after = (rows : List AuditRow) × (after.audit_log ≡ rows ++ before.audit_log)

pub Extends-trans : (a b c : Db) → Extends a b → Extends b c → Extends a c
Extends-trans a b c (rows, e) (more, e') = (
  more ++ rows,
  e' ∙ ap (λ (log : List AuditRow). more ++ log) e ∙ sym (append_assoc more rows a.audit_log),
)

pub Extends-refl : (a : Db) → Extends a a
Extends-refl a = ([], refl)

-- What a call may do to the state.
abbrev pub IsCalm : {W : Type 0} → Agent W → Agent W → Type 0
IsCalm before after = (after.app ≡ before.app) × Extends before.db after.db

pub IsCalm-trans : {W : Type 0} (a b c : Agent W) → IsCalm a b → IsCalm b c → IsCalm a c
IsCalm-trans a b c (p, h) (q, k) = (q ∙ p, Extends-trans a.db b.db c.db h k)

IsCalm-refl : {W : Type 0} (a : Agent W) → IsCalm a a
IsCalm-refl a = (refl, Extends-refl a.db)

unfoldable pub Runs : {W E A : Type 0} → M W E A → Type 0
Runs {W} m = (s : Agent W) → ((m s).0 ≢ panicked) × IsCalm s (m s).1

unfoldable pub Ends : {W E A : Type 0} → M W E A → Type 0
Ends {W} {A = A} m = (s : Agent W) → ((a : A) × ((m s).0 ≡ ok a)) × IsCalm s (m s).1

module _ {W E : Type 0} where
  run_pair :
      {A B : Type 0} (p : Outcome E A × Agent W) (f : A → M W E B) (s : Agent W)
      → ((a : A) → Runs (f a))
      → (p.0 ≢ panicked) × IsCalm s p.1
      → ((((λ (_ : Agent W). p) >>= f) s).0 ≢ panicked)
        × IsCalm s (((λ (_ : Agent W). p) >>= f) s).1
  unfolding Runs
  run_pair (ok a, s') f s h k = ((h a s').0, IsCalm-trans s s' (f a s').1 k.1 (h a s').1)
  run_pair (err x, s') f s h k = (λ bad. ground arith, k.1)
  run_pair (panicked, s') f s h k = absurd (k.0 refl)

  pub bind-Runs :
      {A B : Type 0} (m : M W E A) (f : A → M W E B)
      → Runs m
      → ((a : A) → Runs (f a))
      → Runs (m >>= f)
  unfolding Runs
  bind-Runs m f k h s = run_pair (m s) f s h (k s)

  end_pair :
      {A B : Type 0} (p : Outcome E A × Agent W) (f : A → M W E B) (s : Agent W)
      → ((a : A) → Ends (f a))
      → ((a : A) × (p.0 ≡ ok a)) × IsCalm s p.1
      → ((b : B) × ((((λ (_ : Agent W). p) >>= f) s).0 ≡ ok b))
        × IsCalm s (((λ (_ : Agent W). p) >>= f) s).1
  unfolding Ends
  end_pair (ok a, s') f s h k = ((h a s').0, IsCalm-trans s s' (f a s').1 k.1 (h a s').1)
  end_pair (err x, s') f s h k = absurd (let (a, e) = k.0 in ground arith)
  end_pair (panicked, s') f s h k = absurd (let (a, e) = k.0 in ground arith)

  pub bind-Ends :
      {A B : Type 0} (m : M W E A) (f : A → M W E B)
      → Ends m
      → ((a : A) → Ends (f a))
      → Ends (m >>= f)
  unfolding Ends
  bind-Ends m f k h s = end_pair (m s) f s h (k s)

  pub branch-Runs : {A : Type 0} (c : Bool) (m k : M W E A) → Runs m → Runs k → Runs (branch c m k)
  unfolding Runs
  branch-Runs true m k h h' s = h s
  branch-Runs false m k h h' s = h' s

  pub branch-Ends : {A : Type 0} (c : Bool) (m k : M W E A) → Ends m → Ends k → Ends (branch c m k)
  unfolding Ends
  branch-Ends true m k h h' s = h s
  branch-Ends false m k h h' s = h' s

  pub when-Ends : (c : Bool) (m : M W E (Unit {0})) → Ends m → Ends (when c m)
  unfolding Ends
  when-Ends true m h s = h s
  when-Ends false m h s = ((tt, refl), IsCalm-refl s)

  pub Ends-Runs : {A : Type 0} (m : M W E A) → Ends m → Runs m
  unfolding Ends Runs
  Ends-Runs m h s = let ((a, e), same) = h s in (λ bad. ground arith, same)

module _ (W E : Type 0) where
  pub pure-Ends : {A : Type 0} (a : A) → Ends {W = W} {E = E} {A = A} (pure a)
  unfolding Ends
  pure-Ends a s = ((a, refl), IsCalm-refl s)

  pub ask-Ends : {A : Type 0} (f : W → A × W) → Ends {W = W} {E = E} {A = A} (ask f)
  unfolding Ends
  ask-Ends f s = (((f s.world).0, refl), (refl, ([], refl)))

  pub tell-Ends : (f : W → W) → Ends {W = W} {E = E} {A = Unit {0}} (tell f)
  unfolding Ends
  tell-Ends f s = ((tt, refl), (refl, ([], refl)))

  pub gets_db-Ends : {A : Type 0} (f : Db → A) → Ends {W = W} {E = E} {A = A} (gets_db f)
  unfolding Ends
  gets_db-Ends f s = ((f s.db, refl), IsCalm-refl s)

  pub modify_db-Ends :
      (f : Db → Db)
      → ((db : Db) → Extends db (f db))
      → Ends {W = W} {E = E} {A = Unit {0}} (modify_db f)
  unfolding Ends
  modify_db-Ends f h s = ((tt, refl), (refl, h s.db))

  pub throw-Runs : (A : Type 0) (x : E) → Runs {W = W} {E = E} {A = A} (throw x)
  unfolding Runs
  throw-Runs A x s = (λ bad. ground arith, IsCalm-refl s)

  pub refuse_if-Runs : (c : Bool) (x : E) → Runs {W = W} {E = E} {A = Unit {0}} (refuse_if c x)
  unfolding Runs
  refuse_if-Runs c x s = (λ bad. ground arith, IsCalm-refl s)

  pub or_throw-Runs :
      {A : Type 0} (o : Option A) (x : E) → Runs {W = W} {E = E} {A = A} (or_throw o x)
  unfolding Runs
  or_throw-Runs o x s = (λ bad. ground arith, IsCalm-refl s)

module _ {W E : Type 0} (D : Type 0) where
  ignore_end :
      {A : Type 0} (p : Outcome E A × Agent W) (s : Agent W)
      → (p.0 ≢ panicked) × IsCalm s p.1
      → ((u : Unit {0}) × ((ignore {D = D} (λ (_ : Agent W). p) s).0 ≡ ok u))
        × IsCalm s (ignore {D = D} (λ (_ : Agent W). p) s).1
  ignore_end (ok a, s') s h = ((tt, refl), h.1)
  ignore_end (err x, s') s h = ((tt, refl), h.1)
  ignore_end (panicked, s') s h = absurd (h.0 refl)

  pub ignore-Ends : {A : Type 0} (m : M W E A) → Runs m → Ends (ignore {D = D} m)
  unfolding Runs Ends
  ignore-Ends m h s = ignore_end (m s) s (h s)

  catch_end :
      {A : Type 0} (p : Outcome E A × Agent W) (s : Agent W)
      → (p.0 ≢ panicked) × IsCalm s p.1
      → ((r : Outcome E A) × ((catch {D = D} (λ (_ : Agent W). p) s).0 ≡ ok r))
        × IsCalm s (catch {D = D} (λ (_ : Agent W). p) s).1
  catch_end (ok a, s') s h = ((ok a, refl), h.1)
  catch_end (err x, s') s h = ((err x, refl), h.1)
  catch_end (panicked, s') s h = absurd (h.0 refl)

  pub catch-Ends : {A : Type 0} (m : M W E A) → Runs m → Ends (catch {D = D} m)
  unfolding Runs Ends
  catch-Ends m h s = catch_end (m s) s (h s)

-- A call whose parts end, ends.
pub ruleset ends = (
  bind-Ends, branch-Ends, when-Ends, pure-Ends, ask-Ends, tell-Ends, gets_db-Ends, modify_db-Ends,
  ignore-Ends, catch-Ends,
)

pub ruleset runs = (
  bind-Runs, branch-Runs, throw-Runs, refuse_if-Runs, or_throw-Runs, Ends-Runs, pure-Ends, ask-Ends,
  tell-Ends, gets_db-Ends, modify_db-Ends,
)
