-- ===== src/Handlers/Wireguard/Names.antt =====
-- The name of a data-plane interface, and slices of a text.
use panel_agent.Common.{
  ℕ, Bool, false, not, ◌||◌, Option, none, some, [], ◌∷◌, ◌++◌, Text, txt, length, all, take,
  get_elem?, ltb, ◌==◌, if◌then◌else◌,
}
use panel_agent.Runtime.{AgentError, M, ◌>>◌, pure, refuse_if, panic_unless}
use panel_agent.Handlers.Params.{is_alphanumeric}

-- Whether a byte begins a character; past the end, nothing does.
abbrev begins : Option ℕ → Bool
begins none = false
begins (some c) = ltb c 128 || ltb 191 c

-- `is_char_boundary`
unfoldable pub is_boundary : ℕ → Text → Bool
is_boundary n s = length s == n || (n == 0 || begins (get_elem? s n))

-- `tunnel_id.replace('-', "")`
unfoldable pub remove_dashes : Text → Text
remove_dashes [] = []
remove_dashes (c ∷ s) = if c == b'-' then remove_dashes s else c ∷ remove_dashes s

abbrev min_of : ℕ → ℕ → ℕ
min_of a b = if ltb a b then a else b

-- `&s[..s.len().min(8)]`
unfoldable pub iface_suffix : Text → Text
unfolding remove_dashes
iface_suffix tunnel_id =
    take (min_of (length (remove_dashes tunnel_id)) 8) (remove_dashes tunnel_id)

-- `&s[..n]` panics unless `n` is a boundary of the text.
unfoldable pub slice_panics : ℕ → Text → Bool
unfolding is_boundary
slice_panics n s = not (is_boundary n s)

-- The interface of a tunnel id: the slice, the test of its characters, and the name.
unfoldable pub interface_of : {W : Type 0} → Text → M W AgentError Text
unfolding iface_suffix slice_panics txt
interface_of tunnel_id = do
  panic_unless
      (not (slice_panics (min_of (length (remove_dashes tunnel_id)) 8) (remove_dashes tunnel_id)))
  refuse_if (not (all is_alphanumeric (iface_suffix tunnel_id)))
      (AgentError.bad_request (txt "tunnel_id produces invalid interface suffix"))
  pure (txt "wg-lynx-dp-" ++ iface_suffix tunnel_id)
