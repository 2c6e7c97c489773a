-- ===== src/Runtime/Laws.antt =====
-- Case lemmas for outcomes, that keep the equation, and a law of the monad.
use panel_agent.Common.{arith, ◌≡◌, ◌≢◌, refl, sym, ◌⊎◌, inl, inr}
use panel_agent.Runtime.{Outcome, ok, err, panicked, M, Agent, catch, ignore, ◌>>=◌}

pub Outcome-cases :
    {E A : Type 0} (r : Outcome E A)
    → ((a : A) × (r ≡ ok a)) ⊎ (((x : E) × (r ≡ err x)) ⊎ (r ≡ panicked))
Outcome-cases (ok a) = inl (a, refl)
Outcome-cases (err x) = inr (inl (x, refl))
Outcome-cases panicked = inr (inr refl)

module _ {W E D A B : Type 0} (f : Outcome E A → M W D B) (s : Agent W) where
  catch_pair :
      (p : Outcome E A × Agent W)
      → ((s' : Agent W) → f panicked s' ≡ (panicked, s'))
      → (catch {D = D} (λ (_ : Agent W). p) >>= f) s ≡ f p.0 p.1
  catch_pair (ok a, s') h = refl
  catch_pair (err x, s') h = refl
  catch_pair (panicked, s') h = sym (h s')

  -- What follows a `catch` is run on the outcome, if it passes a panic on.
  pub catch_bind :
      (m : M W E A)
      → ((s' : Agent W) → f panicked s' ≡ (panicked, s'))
      → (catch {D = D} m >>= f) s ≡ f (m s).0 (m s).1
  catch_bind m h = catch_pair (m s) h

module _ {W E D A B : Type 0} (k : M W D B) (s : Agent W) where
  ignore_pair :
      (p : Outcome E A × Agent W)
      → p.0 ≢ panicked
      → (ignore {D = D} (λ (_ : Agent W). p) >>= λ _. k) s ≡ k p.1
  ignore_pair (ok a, s') h = refl
  ignore_pair (err x, s') h = refl
  ignore_pair (panicked, s') h = absurd (h refl)

  -- What follows an ignored call is run on the state that the call left.
  pub ignore_bind : (m : M W E A) → (m s).0 ≢ panicked → (ignore {D = D} m >>= λ _. k) s ≡ k (m s).1
  ignore_bind m h = ignore_pair (m s) h

module _ {W E A B : Type 0} (f : A → M W E B) where
  -- The first part of a run that succeeded, and what followed it.
  abbrev IsFirst : Outcome E A × Agent W → Outcome E B × Agent W → Type 0
  IsFirst p q = (a : A) × ((t : Agent W) × ((p ≡ (ok a, t)) × (f a t ≡ q)))

  bind_pair-ok :
      (p : Outcome E A × Agent W) (s s' : Agent W) {b : B}
      → ((λ (_ : Agent W). p) >>= f) s ≡ (ok b, s')
      → IsFirst p (ok b, s')
  bind_pair-ok (ok a, t) s s' h = (a, (t, (refl, h)))
  bind_pair-ok (err x, t) s s' h = absurd (ground arith)
  bind_pair-ok (panicked, t) s s' h = absurd (ground arith)

  pub bind-ok :
      (m : M W E A) (s s' : Agent W) {b : B} → (m >>= f) s ≡ (ok b, s') → IsFirst (m s) (ok b, s')
  bind-ok m s s' h = bind_pair-ok (m s) s s' h
