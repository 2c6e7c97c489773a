-- ===== src/Tests/Startup.antt =====
-- An example for the start of the agent.
use panel_agent.Common.{[], ◌∷◌, txt}
use panel_agent.Runtime.{Env, Agent, PermissionLevel}
use panel_agent.Tests.Fixture.{Scene, env_of, agent_at, command_named, empty_db}

abbrev an_env : Env
an_env = env_of (command_named (txt "nftables.apply")) PermissionLevel.write 1000

-- One row, with an empty body.
abbrev seeded : Agent Scene
seeded = record (agent_at 1000) {
  db = record empty_db {
    nftables_state = record { chain = txt "lynx-local"; body = []; wg_port = 51820 } ∷ [];
  };
}
