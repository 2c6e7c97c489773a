-- ===== src/Conflict/Lockdown.antt =====
-- What a round of the check does to the lockdown.
use panel_agent.Common.{
  ◌≡◌, ◌⊎◌, inl, inr, refl, sym, ap, ◌∙◌, subst, Bool, true, false, List, [], ◌∷◌, ◌++◌, Text, txt,
  arith, Bool-cases,
}
use panel_agent.Runtime.{Env, Agent, Outcome, ok, err}
use panel_agent.Runtime.Laws.{Outcome-cases, catch_bind}
use panel_agent.Runtime.Ends.{
  Runs, Ends, IsCalm, IsCalm-trans, Extends, Extends-trans, Extends-refl,
}
use panel_agent.State.{LockdownReason, set_lockdown}
use panel_agent.Conflict.{
  IncompatibleSoftware, is_present, remove, notify_dashboard, record_audit, on_removal,
  check_software, check_all,
}
use panel_agent.Conflict.Removal.{present-Ends, notify-Ends, record-Ends, remove-Runs}

module _ (e : Env) (io_error : Text) (E : Type 0) where
  open e use {machine}

  -- The state when a detected software is to be removed: the detection is in the log.
  abbrev pub detected : IncompatibleSoftware → Agent machine.World → Agent machine.World
  detected sw s =
      (notify_dashboard e {E = E} sw.name (txt "detected") (is_present e {E = E} sw s).1).1

  -- The state when a removal has been logged.
  abbrev logged : IncompatibleSoftware → Text → Agent machine.World → Agent machine.World
  logged sw detail s =
      (record_audit e {E = E} sw.name detail (notify_dashboard e {E = E} sw.name detail s).1).1

  logged-IsCalm :
      (sw : IncompatibleSoftware) (detail : Text) (s : Agent machine.World)
      → IsCalm s (logged sw detail s)
  unfolding Ends
  logged-IsCalm sw detail s =
      let s' = (notify_dashboard e {E = E} sw.name detail s).1 in
      IsCalm-trans s s' (logged sw detail s) (notify-Ends e E sw.name detail s).1
        (record-Ends e E sw.name detail s').1

  abbrev pub lock : Agent machine.World → Agent machine.World
  lock s = record s { app = set_lockdown LockdownReason.incompatible_software s.app }

  removed-ok :
      (sw : IncompatibleSoftware) (s : Agent machine.World)
      → on_removal e io_error {E = E} sw (ok tt) s ≡ (ok true, logged sw (txt "removed") s)
  unfolding on_removal Ends
  removed-ok sw s =
      let noted = (notify-Ends e E sw.name (txt "removed") s).0 in
      let recorded =
        (record-Ends e E sw.name (txt "removed")
          (notify_dashboard e {E = E} sw.name (txt "removed") s).1).0 in
      ground arith

  removed-err :
      (sw : IncompatibleSoftware) (x : Text) (s : Agent machine.World)
      → on_removal e io_error {E = E} sw (err x) s
        ≡ (ok false, lock (logged sw (txt "removal_failed: " ++ x) s))
  unfolding on_removal Ends
  removed-err sw x s =
      let noted = (notify-Ends e E sw.name (txt "removal_failed: " ++ x) s).0 in
      let recorded =
        (record-Ends e E sw.name (txt "removal_failed: " ++ x)
          (notify_dashboard e {E = E} sw.name (txt "removal_failed: " ++ x) s).1).0 in
      ground arith

  -- The turn on a software that is there, by the removal.
  present_steps :
      (sw : IncompatibleSoftware) (s : Agent machine.World)
      → (is_present e {E = E} sw s).0 ≡ ok true
      → check_software e io_error {E = E} sw s
        ≡ on_removal e io_error {E = E} sw
            (remove e io_error sw (detected sw s)).0
            (remove e io_error sw (detected sw s)).1
  unfolding check_software Ends on_removal
  present_steps sw s h =
      let noted = notify-Ends e E sw.name (txt "detected") (is_present e {E = E} sw s).1 in
      let caught =
        catch_bind (on_removal e io_error {E = E} sw) (detected sw s) (remove e io_error sw)
          (λ _. refl) in
      ground arith

  removal-IsCalm :
      (sw : IncompatibleSoftware) (s : Agent machine.World)
      → IsCalm s (remove e io_error sw (detected sw s)).1
  unfolding Ends Runs
  removal-IsCalm sw s =
      let s' = (is_present e {E = E} sw s).1 in
      IsCalm-trans s (detected sw s) (remove e io_error sw (detected sw s)).1
        (IsCalm-trans s s' (detected sw s) (present-Ends e E sw s).1
          (notify-Ends e E sw.name (txt "detected") s').1)
        (remove-Runs e io_error sw (detected sw s)).1

  -- The software is there, and its removal fails.
  abbrev pub IsStubborn : IncompatibleSoftware → Agent machine.World → Type 0
  IsStubborn sw s =
      ((is_present e {E = E} sw s).0 ≡ ok true)
      × ((x : Text) × ((remove e io_error sw (detected sw s)).0 ≡ err x))

  -- The loop goes on.
  abbrev GoesOn : Agent machine.World → Outcome E Bool × Agent machine.World → Type 0
  GoesOn s p = (p.0 ≡ ok true) × IsCalm s p.1

  -- The loop stops in lockdown.
  abbrev Stops : Agent machine.World → Outcome E Bool × Agent machine.World → Type 0
  Stops s p = (t : Agent machine.World) × ((p ≡ (ok false, lock t)) × IsCalm s t)

  absent_turn :
      (sw : IncompatibleSoftware) (s : Agent machine.World)
      → (is_present e {E = E} sw s).0 ≡ ok false
      → GoesOn s (check_software e io_error {E = E} sw s)
  unfolding check_software Ends
  absent_turn sw s h =
      let steps : check_software e io_error {E = E} sw s
          ≡ (ok true, (is_present e {E = E} sw s).1) =
        ground arith in
      subst (GoesOn s) (sym steps) (refl, (present-Ends e E sw s).1)

  stubborn_turn :
      (sw : IncompatibleSoftware) (s : Agent machine.World)
      → IsStubborn sw s
      → Stops s (check_software e io_error {E = E} sw s)
  stubborn_turn sw s (present, (x, failed)) =
      let s' = (remove e io_error sw (detected sw s)).1 in
      let t = logged sw (txt "removal_failed: " ++ x) s' in
      let steps : check_software e io_error {E = E} sw s ≡ (ok false, lock t) =
        present_steps sw s present
        ∙ ap (λ r. on_removal e io_error {E = E} sw r s') failed
        ∙ removed-err sw x s' in
      (t, (steps, IsCalm-trans s s' t (removal-IsCalm sw s) (logged-IsCalm sw _ s')))

  removed_turn :
      (sw : IncompatibleSoftware) (s : Agent machine.World)
      → (is_present e {E = E} sw s).0 ≡ ok true
      → (remove e io_error sw (detected sw s)).0 ≡ ok tt
      → GoesOn s (check_software e io_error {E = E} sw s)
  removed_turn sw s present done =
      let s' = (remove e io_error sw (detected sw s)).1 in
      let t = logged sw (txt "removed") s' in
      let steps : check_software e io_error {E = E} sw s ≡ (ok true, t) =
        present_steps sw s present
        ∙ ap (λ r. on_removal e io_error {E = E} sw r s') done
        ∙ removed-ok sw s' in
      subst (GoesOn s) (sym steps)
        (refl, IsCalm-trans s s' t (removal-IsCalm sw s) (logged-IsCalm sw _ s'))

  turn :
      (sw : IncompatibleSoftware) (s : Agent machine.World)
      → GoesOn s (check_software e io_error {E = E} sw s)
        ⊎ (Stops s (check_software e io_error {E = E} sw s) × IsStubborn sw s)
  unfolding Ends Runs
  turn sw s =
      let ((b, answer), _) = present-Ends e E sw s in
      elim (Bool-cases b) [
        | inr absent ↦ inl (absent_turn sw s (answer ∙ ap ok absent))
        | inl present ↦ elim (Outcome-cases (remove e io_error sw (detected sw s)).0) [
          | inl (_, done) ↦ inl (removed_turn sw s (answer ∙ ap ok present) done)
          | inr (inl (x, failed)) ↦
              let h : IsStubborn sw s = (answer ∙ ap ok present, (x, failed)) in
              inr (stubborn_turn sw s h, h)
          | inr (inr bad) ↦ absurd ((remove-Runs e io_error sw (detected sw s)).0 bad)
        ]
      ]

  -- A software of the list is stubborn when the round comes to it.
  abbrev pub HasStubborn : List IncompatibleSoftware → Agent machine.World → Type 0
  HasStubborn [] s = ⊥
  HasStubborn (sw ∷ rest) s =
      IsStubborn sw s ⊎ HasStubborn rest (check_software e io_error {E = E} sw s).1

  -- The round ended and only added rows to the log; the state in memory is as it was and no software
  -- was stubborn, or the agent is locked down and one was.
  abbrev pub IsRound :
      List IncompatibleSoftware
      → Agent machine.World
      → Outcome E (Unit {0}) × Agent machine.World
      → Type 0
  IsRound list s p =
      (p.0 ≡ ok tt)
      × Extends s.db p.1.db
      × (((p.1.app ≡ s.app) × (HasStubborn list s → ⊥))
          ⊎ ((p.1.app ≡ set_lockdown LockdownReason.incompatible_software s.app)
              × HasStubborn list s))

  going_on :
      (sw : IncompatibleSoftware) (rest : List IncompatibleSoftware) (s : Agent machine.World)
      → (check_software e io_error {E = E} sw s).0 ≡ ok true
      → (HasStubborn rest (check_software e io_error {E = E} sw s).1 → ⊥)
      → HasStubborn (sw ∷ rest) s
      → ⊥
  going_on sw rest s more none_later (inl h) =
      let (t, (stopped, _)) = stubborn_turn sw s h in ground arith
  going_on sw rest s more none_later (inr h) = none_later h

  -- A round over any list of software ends without an error or a panic, whatever the commands do, and
  -- removes and changes no row of the audit log. The agent is then locked down for incompatible
  -- software, and the rest of the state in memory as it was, if a software that was there when the
  -- round came to it could not be removed; otherwise the state in memory is as it was.
  pub check_all-IsRound :
      (list : List IncompatibleSoftware) (s : Agent machine.World)
      → IsRound list s (check_all e io_error {E = E} list s)
  unfolding check_all
  check_all-IsRound [] s = (refl, Extends-refl s.db, inl (refl, λ h. h))
  check_all-IsRound (sw ∷ rest) s = elim (turn sw s) [
    | inr ((t, (stop, (same, grown))), h) ↦
        let steps : check_all e io_error {E = E} (sw ∷ rest) s ≡ (ok tt, lock t) = ground arith in
        subst (IsRound (sw ∷ rest) s) (sym steps)
          (refl, grown, inr (ap (set_lockdown LockdownReason.incompatible_software) same, inl h))
    | inl (more, (same, grown)) ↦
        let s' = (check_software e io_error {E = E} sw s).1 in
        let steps : check_all e io_error {E = E} (sw ∷ rest) s
            ≡ check_all e io_error {E = E} rest s' =
          ground arith in
        let (ended, grown_later, later) = check_all-IsRound rest s' in
        let all_grown =
          Extends-trans s.db s'.db (check_all e io_error {E = E} rest s').1.db grown grown_later in
        subst (IsRound (sw ∷ rest) s) (sym steps) (
          ended,
          all_grown,
          elim later [
            | inl (kept, none_later) ↦ inl (kept ∙ same, going_on sw rest s more none_later)
            | inr (locked, h) ↦
                inr (locked ∙ ap (set_lockdown LockdownReason.incompatible_software) same, inr h)
          ],
        )
  ]
