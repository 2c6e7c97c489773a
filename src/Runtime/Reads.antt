-- ===== src/Runtime/Reads.antt =====
-- Which calls do no more with the machine than to query the database, read its clock and draw ids: no
-- process, no file, no task and no request.
use panel_agent.Common.{Bool, true, false}
use panel_agent.Runtime.{
  Machine, Agent, M, ◌>>=◌, pure, Outcome, ok, err, panicked, ask, refuse_if, gets_db, modify_db,
  Db, from_outcome,
}

pub data Reads (m : Machine) (w : m.World) : m.World → Type 0 where
  still : Reads m w w
  clock : {v : m.World} → Reads m w v → Reads m w (m.clock v).1
  query : {v : m.World} → Reads m w v → Reads m w (m.query_fails v).1
  id : {v : m.World} → Reads m w v → Reads m w (m.new_uuid v).1
  tie : {v : m.World} → Reads m w v → Reads m w (m.tie_order v).1

pub Reads-trans : (m : Machine) (u v w : m.World) → Reads m u v → Reads m v w → Reads m u w
Reads-trans m u v _ h still = h
Reads-trans m u v _ h (clock k) = clock (Reads-trans m u v _ h k)
Reads-trans m u v _ h (query k) = query (Reads-trans m u v _ h k)
Reads-trans m u v _ h (id k) = id (Reads-trans m u v _ h k)
Reads-trans m u v _ h (tie k) = tie (Reads-trans m u v _ h k)

unfoldable pub Peeks : (m : Machine) {E A : Type 0} → M m.World E A → Type 0
Peeks m f = (s : Agent m.World) → Reads m s.world (f s).1.world

module _ (m : Machine) (E : Type 0) where
  open m use {World}

  bind_peeked :
      {A B : Type 0} (p : Outcome E A × Agent World) (f : A → M World E B) (s : Agent World)
      → ((a : A) → Peeks m (f a))
      → Reads m s.world p.1.world
      → Reads m s.world (((λ (_ : Agent World). p) >>= f) s).1.world
  unfolding Peeks
  bind_peeked (ok a, t) f s h k = Reads-trans m s.world t.world (f a t).1.world k (h a t)
  bind_peeked (err x, t) f s h k = k
  bind_peeked (panicked, t) f s h k = k

  pub bind-Peeks :
      {A B : Type 0} (f : M World E A) (g : A → M World E B)
      → Peeks m f
      → ((a : A) → Peeks m (g a))
      → Peeks m (f >>= g)
  unfolding Peeks
  bind-Peeks f g h k s = bind_peeked (f s) g s k (h s)

  pub pure-Peeks : {A : Type 0} (a : A) → Peeks m (pure {E = E} a)
  unfolding Peeks
  pure-Peeks a s = still

  pub refuse_if-Peeks : (b : Bool) (x : E) → Peeks m (refuse_if b x)
  unfolding Peeks
  refuse_if-Peeks true x s = still
  refuse_if-Peeks false x s = still

  pub from_outcome-Peeks : {A : Type 0} (o : Outcome E A) → Peeks m (from_outcome o)
  unfolding Peeks
  from_outcome-Peeks (ok a) s = still
  from_outcome-Peeks (err x) s = still
  from_outcome-Peeks panicked s = still

  pub gets_db-Peeks : {A : Type 0} (f : Db → A) → Peeks m (gets_db {E = E} f)
  unfolding Peeks
  gets_db-Peeks f s = still

  pub modify_db-Peeks : (f : Db → Db) → Peeks m (modify_db {E = E} f)
  unfolding Peeks
  modify_db-Peeks f s = still

  pub clock-Peeks : Peeks m (ask {E = E} m.clock)
  unfolding Peeks
  clock-Peeks s = clock still

  pub query-Peeks : Peeks m (ask {E = E} m.query_fails)
  unfolding Peeks
  query-Peeks s = query still

  pub id-Peeks : Peeks m (ask {E = E} m.new_uuid)
  unfolding Peeks
  id-Peeks s = id still

  pub tie-Peeks : Peeks m (ask {E = E} m.tie_order)
  unfolding Peeks
  tie-Peeks s = tie still

pub ruleset peeks = (
  bind-Peeks, pure-Peeks, refuse_if-Peeks, from_outcome-Peeks, gets_db-Peeks, modify_db-Peeks,
  clock-Peeks, query-Peeks, id-Peeks, tie-Peeks,
)
