-- ===== src/Update/Perform.antt =====
-- `perform_update` of src/update/mod.rs.
use panel_agent.Common.{ℕ, Option, Text, txt, ◌++◌}
use panel_agent.Runtime.{Env, FileOp, M, ◌>>=◌, ◌>>◌, pure, ask, when, must_file}
use panel_agent.Runtime.Web.{Web}
use panel_agent.Update.Download.{
  UpdateError, validate_github_url, build_ssrf_safe_client, download_bytes, verify_signature,
}

-- `process::exit` with this code.
pub data Exit : Type 0 where
  exits : ℕ → Exit

abbrev pub agent_binary : Text
agent_binary = txt "/etc/lynx/bin/lynx-agent"

module _ (e : Env) where
  open e use {machine}
  open machine use {World, file}

  -- The swap of the binary, and the exit. The mode is 0o755.
  unfoldable pub install : Text → M World UpdateError Exit
  unfolding txt
  install binary = do
    must_file machine UpdateError.write (FileOp.write (agent_binary ++ txt ".new") binary)
    must_file machine UpdateError.permissions (FileOp.set_mode (agent_binary ++ txt ".new") 493)
    present ← ask (file (FileOp.exists agent_binary))
    when present (
        must_file machine UpdateError.backup
          (FileOp.copy agent_binary (agent_binary ++ txt ".prev")))
    must_file machine UpdateError.rename (FileOp.rename (agent_binary ++ txt ".new") agent_binary)
    pure (Exit.exits 0)

  unfoldable pub perform_update :
      Web World e.json.Value → (Text → Option Text) → Text → Text → Text → M World UpdateError Exit
  perform_update web decode_base64 version download_url sig_url = do
    validate_github_url e web download_url
    validate_github_url e web sig_url
    bin_client ← build_ssrf_safe_client e web download_url
    sig_client ← build_ssrf_safe_client e web sig_url
    binary_bytes ← download_bytes e web bin_client download_url
    sig_bytes ← download_bytes e web sig_client sig_url
    verify_signature e decode_base64 binary_bytes sig_bytes
    install binary_bytes
