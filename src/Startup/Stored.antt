-- ===== src/Startup/Stored.antt =====
-- What a start reads of a row that a command has updated.
use panel_agent.Common.{
  ◌%◌, ◌^◌, ◌≡◌, refl, ap, sym, ◌∙◌, Bool, false, List, [], ◌∷◌, Text, txt, text_eq, text_eq_iff,
  ◌||◌, any, arith, if◌then◌else◌, ℕ,
}
use panel_agent.Runtime.{ChainRow}
use panel_agent.Startup.{StoredBodies, take_body, read_rows, insert_chain, sort_chains}
use panel_agent.Handlers.Nftables.{update_chain_row}

-- The body of the last row of the chain, and one for the case that there is none.
unfoldable pub last_body : Text → List ChainRow → Text → Text
last_body chain [] d = d
last_body chain (r ∷ rs) d = last_body chain rs (if text_eq r.chain chain then r.body else d)

abbrev pub has_row : Text → List ChainRow → Bool
has_row chain rows = any (λ r. text_eq r.chain chain) rows

abbrev updated : Text → Text → ℕ → ChainRow → ChainRow
updated chain body port r =
    if text_eq r.chain chain then record r { body = body; wg_port = port } else r

-- The update does not change the order of the rows.
insert_chain-update_chain_row :
    (chain body : Text) (port : ℕ) (r : ChainRow) (rows : List ChainRow)
    → update_chain_row chain body port (insert_chain r rows)
      ≡ insert_chain (updated chain body port r) (update_chain_row chain body port rows)
unfolding insert_chain update_chain_row
insert_chain-update_chain_row chain body port r [] = refl
insert_chain-update_chain_row chain body port r (q ∷ qs) =
    ground (arith, insert_chain-update_chain_row chain body port r qs)

pub sort_chains-update_chain_row :
    (chain body : Text) (port : ℕ) (rows : List ChainRow)
    → sort_chains (update_chain_row chain body port rows)
      ≡ update_chain_row chain body port (sort_chains rows)
unfolding sort_chains update_chain_row
sort_chains-update_chain_row chain body port [] = refl
sort_chains-update_chain_row chain body port (r ∷ rs) =
    ap (insert_chain (updated chain body port r)) (sort_chains-update_chain_row chain body port rs)
    ∙ sym (insert_chain-update_chain_row chain body port r (sort_chains rs))

has_row-insert_chain :
    (chain : Text) (r : ChainRow) (rows : List ChainRow)
    → has_row chain (insert_chain r rows) ≡ (text_eq r.chain chain || has_row chain rows)
unfolding insert_chain
has_row-insert_chain chain r [] = refl
has_row-insert_chain chain r (q ∷ qs) = ground (arith, has_row-insert_chain chain r qs)

pub has_row-sort_chains :
    (chain : Text) (rows : List ChainRow) → has_row chain (sort_chains rows) ≡ has_row chain rows
unfolding sort_chains
has_row-sort_chains chain [] = refl
has_row-sort_chains chain (r ∷ rs) =
    ground (arith, has_row-insert_chain chain r (sort_chains rs), has_row-sort_chains chain rs)

pub last_body-updated :
    (chain body : Text) (port : ℕ) (rows : List ChainRow) (d : Text)
    → last_body chain (update_chain_row chain body port rows) d
      ≡ (if has_row chain rows then body else d)
unfolding last_body update_chain_row
last_body-updated chain body port [] d = refl
last_body-updated chain body port (r ∷ rs) d =
    ground
      (arith, last_body-updated chain body port rs body, last_body-updated chain body port rs d)

pub last_body-kept :
    (chain other body : Text) (port : ℕ) (rows : List ChainRow) (d : Text)
    → text_eq chain other ≡ false
    → last_body other (update_chain_row chain body port rows) d ≡ last_body other rows d
unfolding last_body update_chain_row
last_body-kept chain other body port [] d h = refl
last_body-kept chain other body port (r ∷ rs) d h = ground (
  arith,
  text_eq_iff r.chain chain,
  text_eq_iff r.chain other,
  last_body-kept chain other body port rs r.body h,
  last_body-kept chain other body port rs d h,
)

-- The chains of the table, as the code names them.
abbrev pub lynx_global : Text
lynx_global = txt "lynx-global"

abbrev pub lynx_local : Text
lynx_local = txt "lynx-local"

abbrev pub lynx_global_output : Text
lynx_global_output = txt "lynx-global-output"

abbrev pub lynx_local_output : Text
lynx_local_output = txt "lynx-local-output"

-- No two of them are the same.
abbrev AreDistinct : Type 0
AreDistinct =
    (text_eq lynx_global lynx_local ≡ false)
    × (text_eq lynx_global lynx_global_output ≡ false)
    × (text_eq lynx_global lynx_local_output ≡ false)
    × (text_eq lynx_local lynx_global_output ≡ false)
    × (text_eq lynx_local lynx_local_output ≡ false)
    × (text_eq lynx_global_output lynx_local_output ≡ false)

pub chains-AreDistinct : AreDistinct
unfolding txt text_eq
chains-AreDistinct = (refl, refl, refl, refl, refl, refl)

-- What one row gives, by its chain.
abbrev IsTaken : ChainRow → StoredBodies → StoredBodies → Type 0
IsTaken r b t =
    (t.global_body ≡ (if text_eq r.chain lynx_global then r.body else b.global_body))
    × (t.local_body ≡ (if text_eq r.chain lynx_local then r.body else b.local_body))
    × (t.global_output_body
        ≡ (if text_eq r.chain lynx_global_output then r.body else b.global_output_body))
    × (t.local_output_body
        ≡ (if text_eq r.chain lynx_local_output then r.body else b.local_output_body))

taken : (r : ChainRow) (b : StoredBodies) → IsTaken r b (take_body r b)
unfolding take_body
taken r b =
    let (gl, go, glo, lgo, llo, golo) = chains-AreDistinct in
    ground (
      arith,
      text_eq_iff r.chain lynx_global,
      text_eq_iff r.chain lynx_local,
      text_eq_iff r.chain lynx_global_output,
      text_eq_iff r.chain lynx_local_output,
    )

-- The four bodies that are read, each the last of its chain.
abbrev IsRead : List ChainRow → StoredBodies → StoredBodies → Type 0
IsRead rows b t =
    (t.global_body ≡ last_body lynx_global rows b.global_body)
    × (t.local_body ≡ last_body lynx_local rows b.local_body)
    × (t.global_output_body ≡ last_body lynx_global_output rows b.global_output_body)
    × (t.local_output_body ≡ last_body lynx_local_output rows b.local_output_body)

pub read_rows-IsRead : (rows : List ChainRow) (b : StoredBodies) → IsRead rows b (read_rows rows b)
unfolding read_rows last_body
read_rows-IsRead [] b = (refl, refl, refl, refl)
read_rows-IsRead (r ∷ rs) b =
    let (g, l, go, lo) = taken r b in
    let (g', l', go', lo') =
      read_rows-IsRead rs (record (take_body r b) { wg_port = r.wg_port % 2 ^ 16 }) in
    (
      g' ∙ ap (last_body lynx_global rs) g,
      l' ∙ ap (last_body lynx_local rs) l,
      go' ∙ ap (last_body lynx_global_output rs) go,
      lo' ∙ ap (last_body lynx_local_output rs) lo,
    )
