-- ===== src/Audit/Linked.antt =====
-- Rows that are linked to a chain.
use panel_agent.Common.{sym, subst, List, [], ◌∷◌, ◌++◌}
use panel_agent.Runtime.{Crypto, AuditRow}
use panel_agent.Runtime.Growth.{Linked, Links}
use panel_agent.Audit.Chain.{IsChain, IsOrdered, chain_head_previous}

Linked-IsChain :
    (c : Crypto) (rows log : List AuditRow)
    → Linked c rows log
    → IsChain c log
    → IsOrdered (rows ++ log)
    → IsChain c (rows ++ log)
Linked-IsChain c [] log h k o = k
Linked-IsChain c (r ∷ rs) log (seal, link, h) k o = (
  seal,
  chain_head_previous c (rs ++ log) r.previous_hash link.0 o.1 link.1,
  Linked-IsChain c rs log h k o.1,
)

pub Links-IsChain :
    (c : Crypto) (before after : List AuditRow)
    → Links c before after
    → IsChain c before
    → IsOrdered after
    → IsChain c after
Links-IsChain c before after (rows, (same, h)) k o =
    subst (IsChain c) (sym same) (Linked-IsChain c rows before h k (subst IsOrdered same o))
