-- ===== src/Runtime/Growth.antt =====
-- Which calls keep a lockdown that only a restart clears, keep the flag and its reason in step, and
-- only add rows to the audit log, each linked to the latest one by its hash. A call that an error or a
-- panic ends counts too.
use panel_agent.Common.{
  ◌≡◌, refl, sym, ap, subst, ◌∙◌, ◌≢◌, ◌↔◌, Bool, true, false, Option, none, some, List, [], ◌∷◌,
  ◌++◌,
}
use mathlib.Core.List.{append_assoc}
use panel_agent.Runtime.{
  Crypto, AuditRow, latest, Agent, M, ◌>>=◌, Outcome, ok, err, panicked, branch, when, ignore,
  catch, map_err, modify_app, state_app,
}
use panel_agent.Audit.{recompute, chain_head}
use panel_agent.Runtime.Frame.{
  kept, Keeps, pure-Keeps, throw-Keeps, ask-Keeps, tell-Keeps, refuse_if-Keeps, or_throw-Keeps,
  from_outcome-Keeps, panic_unless-Keeps, gets_app-Keeps, gets_db-Keeps, modify_db-Keeps,
  modify_app-Keeps,
}
use panel_agent.State.{AppState, LockdownReason}
use panel_agent.State.Lockdown.{IsStuck, IsConsistent, IsSticky}

abbrev pub Locks : AppState → AppState → Type 0
Locks before after = (IsStuck before → IsStuck after) × (IsConsistent before → IsConsistent after)

-- Each of the rows, that were added in front of the log one by one, has a hash that checks, and
-- names the hash of a row that was the latest.
abbrev pub Linked : Crypto → List AuditRow → List AuditRow → Type 0
Linked c [] log = Unit
Linked c (r ∷ rs) log =
    (recompute c r ≡ r.entry_hash)
    × ((prefers : AuditRow → AuditRow → Bool) × (chain_head c (latest prefers (rs ++ log))
          ≡ ok r.previous_hash))
    × Linked c rs log

Linked-append :
    (c : Crypto) (more rows log : List AuditRow)
    → Linked c more (rows ++ log)
    → Linked c rows log
    → Linked c (more ++ rows) log
Linked-append c [] rows log h k = k
Linked-append c (r ∷ rs) rows log (seal, link, h) k = (
  seal,
  (
    link.0,
    subst (λ l. chain_head c (latest link.0 l) ≡ ok r.previous_hash)
        (sym (append_assoc rs rows log)) link.1,
  ),
  Linked-append c rs rows log h k,
)

abbrev pub Links : Crypto → List AuditRow → List AuditRow → Type 0
Links c before after = (rows : List AuditRow) × ((after ≡ rows ++ before) × Linked c rows before)

Links-trans : (c : Crypto) (a b d : List AuditRow) → Links c a b → Links c b d → Links c a d
Links-trans c a b d (rows, (e, k)) (more, (e', k')) = (
  more ++ rows,
  (
    e' ∙ ap (λ (log : List AuditRow). more ++ log) e ∙ sym (append_assoc more rows a),
    Linked-append c more rows a (subst (Linked c more) e k') k,
  ),
)

abbrev pub Grows : Crypto → {W : Type 0} → Agent W → Agent W → Type 0
Grows c before after = Locks before.app after.app × Links c before.db.audit_log after.db.audit_log

pub Grows-refl : (c : Crypto) {W : Type 0} (s : Agent W) → Grows c s s
Grows-refl c s = ((λ h. h, λ h. h), ([], (refl, tt)))

pub Grows-trans :
    (c : Crypto) {W : Type 0} (s t u : Agent W) → Grows c s t → Grows c t u → Grows c s u
Grows-trans c s t u (l, h) (l', h') = (
  (λ x. l'.0 (l.0 x), λ x. l'.1 (l.1 x)),
  Links-trans c s.db.audit_log t.db.audit_log u.db.audit_log h h',
)

unfoldable pub Stays : Crypto → {W E A : Type 0} → M W E A → Type 0
Stays c {W} m = (s : Agent W) → Grows c s (m s).1

-- The fields that `Locks` reads.
abbrev lock_of : AppState → Bool × Option LockdownReason
lock_of a = (a.lockdown, a.lockdown_reason)

lock_of-Locks : (a b : AppState) → lock_of a ≡ lock_of b → Locks a b
lock_of-Locks a b h = (
  subst (λ (p : Bool × Option LockdownReason). (p.0 ≡ true) × IsSticky p.1) h,
  subst (λ (p : Bool × Option LockdownReason). (p.0 ≡ true) ↔ (p.1 ≢ none)) h,
)

kept-Grows : (c : Crypto) {W : Type 0} (s t : Agent W) → kept t ≡ kept s → Grows c s t
kept-Grows c s t h =
    (lock_of-Locks s.app t.app (sym (ap (λ k. (k.0.0, k.0.1.0)) h)), ([], (ap (λ k. k.1) h, tt)))

module _ (c : Crypto) {W E : Type 0} where
  pub Keeps-Stays : {A : Type 0} (m : M W E A) → Keeps m → Stays c m
  unfolding Keeps Stays
  Keeps-Stays m k s = kept-Grows c s (m s).1 (k s)

  bind_grown :
      {A B : Type 0} (p : Outcome E A × Agent W) (f : A → M W E B)
      → ((a : A) → Stays c (f a))
      → (s : Agent W) → Grows c s p.1
      → Grows c s (((λ (_ : Agent W). p) >>= f) s).1
  unfolding Stays
  bind_grown (ok a, t) f h s g = Grows-trans c s t (f a t).1 g (h a t)
  bind_grown (err x, t) f h s g = g
  bind_grown (panicked, t) f h s g = g

  pub bind-Stays :
      {A B : Type 0} (m : M W E A) (f : A → M W E B)
      → Stays c m
      → ((a : A) → Stays c (f a))
      → Stays c (m >>= f)
  unfolding Stays
  bind-Stays m f k h s = bind_grown (m s) f h s (k s)

  pub branch-Stays :
      {A : Type 0} (b : Bool) (m k : M W E A) → Stays c m → Stays c k → Stays c (branch b m k)
  unfolding Stays
  branch-Stays true m k h h' s = h s
  branch-Stays false m k h h' s = h' s

  pub when-Stays : (b : Bool) (m : M W E (Unit {0})) → Stays c m → Stays c (when b m)
  unfolding Stays
  when-Stays true m h s = h s
  when-Stays false m h s = Grows-refl c s

  -- `if let Some(b) = o { k(b) } else { m }`
  pub option-Stays :
      {A B : Type 0} (o : Option B) (m : M W E A) (k : B → M W E A)
      → Stays c m
      → ((b : B) → Stays c (k b))
      → Stays c (elim o as (λ _. M W E A) [ none ↦ m | some b ↦ k b ])
  option-Stays none m k h h' = h
  option-Stays (some b) m k h h' = h' b

module _ (c : Crypto) {W E : Type 0} (D : Type 0) where
  ignore_state :
      {A : Type 0} (p : Outcome E A × Agent W) (s : Agent W)
      → (ignore {D = D} (λ (_ : Agent W). p) s).1 ≡ p.1
  ignore_state (ok a, t) s = refl
  ignore_state (err x, t) s = refl
  ignore_state (panicked, t) s = refl

  pub ignore-Stays : {A : Type 0} (m : M W E A) → Stays c m → Stays c (ignore {D = D} m)
  unfolding Stays
  ignore-Stays m h s = subst (Grows c s) (sym (ignore_state (m s) s)) (h s)

  catch_state :
      {A : Type 0} (p : Outcome E A × Agent W) (s : Agent W)
      → (catch {D = D} (λ (_ : Agent W). p) s).1 ≡ p.1
  catch_state (ok a, t) s = refl
  catch_state (err x, t) s = refl
  catch_state (panicked, t) s = refl

  pub catch-Stays : {A : Type 0} (m : M W E A) → Stays c m → Stays c (catch {D = D} m)
  unfolding Stays
  catch-Stays m h s = subst (Grows c s) (sym (catch_state (m s) s)) (h s)

module _ (c : Crypto) {W E D : Type 0} where
  map_err_state :
      {A : Type 0} (f : E → D) (p : Outcome E A × Agent W) (s : Agent W)
      → (map_err f (λ (_ : Agent W). p) s).1 ≡ p.1
  map_err_state f (ok a, t) s = refl
  map_err_state f (err x, t) s = refl
  map_err_state f (panicked, t) s = refl

  pub map_err-Stays : {A : Type 0} (f : E → D) (m : M W E A) → Stays c m → Stays c (map_err f m)
  unfolding Stays
  map_err-Stays f m h s = subst (Grows c s) (sym (map_err_state f (m s) s)) (h s)

module _ (c : Crypto) (W E : Type 0) where
  pub lock-Stays :
      (f : AppState → AppState)
      → ((a : AppState) → Locks a (f a))
      → Stays c {W = W} {E = E} (modify_app f)
  unfolding Stays
  lock-Stays f h s = (h s.app, ([], (refl, tt)))

  pub state_app-Stays :
      {A : Type 0} (f : AppState → A × AppState)
      → ((a : AppState) → Locks a (f a).1)
      → Stays c {W = W} {E = E} (state_app f)
  unfolding Stays
  state_app-Stays f h s = (h s.app, ([], (refl, tt)))

pub ruleset stays = (
  bind-Stays, branch-Stays, option-Stays, when-Stays, ignore-Stays, catch-Stays, map_err-Stays,
  Keeps-Stays, pure-Keeps, throw-Keeps, ask-Keeps, tell-Keeps, refuse_if-Keeps, or_throw-Keeps,
  from_outcome-Keeps, panic_unless-Keeps, gets_app-Keeps, gets_db-Keeps, modify_db-Keeps,
  modify_app-Keeps,
)
