-- ===== src/Settings/Loading.antt =====
-- What a successful reading of the configuration has checked.
use panel_agent.Common.{
  not, ◌≡◌, sym, subst, ap, ◌∙◌, Option, none, some, Text, txt, trim, length, ◌==◌, arith,
}
use panel_agent.Runtime.{Machine, Agent, ok, M, ◌>>=◌, ◌>>◌, pure, ask, or_throw, refuse_if}
use panel_agent.Runtime.Laws.{bind-ok}
use panel_agent.Settings.{
  ConfigError, Settings, load_secret, load_secret_opt, load_der_file_opt, load_key32, load_optional,
  load,
}

module _ (m : Machine) where
  open m use {World}

  module _ {A : Type 0} (x : ConfigError) (s s' : Agent World) where
    or_throw-ok :
        (o : Option A) {a : A} → or_throw {E = ConfigError} o x s ≡ (ok a, s') → o ≡ some a
    or_throw-ok none h = absurd (ground arith)
    or_throw-ok (some a) h = ground arith

  module _ (decode_base64 : Text → Option Text) where
    abbrev IsRead : Text → Text → Type 0
    IsRead env raw = (t : Agent World) × ((t' : Agent World) × (load_secret m env t ≡ (ok raw, t')))

    abbrev IsKey : Text → Text → Type 0
    IsKey env key =
        (raw : Text) × (IsRead env raw
          × ((decode_base64 (trim raw) ≡ some key) × (length key ≡ 32)))

    abbrev with_bytes : Text → Text → M World ConfigError Text
    with_bytes env bytes = do
      refuse_if (not (length bytes == 32)) (ConfigError.not_32_bytes env)
      pure bytes

    with_bytes-ok :
        (env bytes : Text) (s s' : Agent World) {key : Text}
        → with_bytes env bytes s ≡ (ok key, s')
        → (bytes ≡ key) × (length key ≡ 32)
    with_bytes-ok env bytes s s' h = (ground arith, ground arith)

    abbrev with_raw : Text → Text → M World ConfigError Text
    unfolding trim
    with_raw env raw = do
      bytes ← or_throw (decode_base64 (trim raw)) (ConfigError.not_base64 env)
      with_bytes env bytes

    load_key32-ok :
        (env : Text) (s s' : Agent World) {key : Text}
        → load_key32 m decode_base64 env s ≡ (ok key, s')
        → IsKey env key
    unfolding load_key32 trim
    load_key32-ok env s s' h =
        let (raw, (s1, (h1, k1))) = bind-ok (with_raw env) (load_secret m env) s s' h in
        let (bytes, (s2, (h2, k2))) =
          bind-ok (with_bytes env)
            (or_throw (decode_base64 (trim raw)) (ConfigError.not_base64 env)) s1 s' k1 in
        let (same, long) = with_bytes-ok env bytes s2 s' k2 in
        (
          raw,
          (
            (s, (s1, h1)),
            (
              or_throw-ok (ConfigError.not_base64 env) s1 s2 (decode_base64 (trim raw)) h2
                  ∙ ap some same,
              long,
            ),
          ),
        )

    load_optional-ok :
        (v url id key token : Text) (s s' : Agent World) {x : Settings}
        → load_optional m decode_base64 v url id key token s ≡ (ok x, s')
        → (x.config.dashboard_verify_key ≡ key) × (x.config.agent_id ≡ id)
    unfolding load_optional load_secret_opt load_der_file_opt
    load_optional-ok v url id key token s s' h = (ground arith, ground arith)

    module _ (parse_uuid : Text → Option Text) (v url : Text) where
      abbrev with_key : Text → Text → M World ConfigError Settings
      unfolding txt
      with_key id key =
          load_secret m (txt "INTERNAL_TOKEN") >>= load_optional m decode_base64 v url id key

      abbrev with_id : Text → M World ConfigError Settings
      unfolding txt
      with_id id = load_key32 m decode_base64 (txt "DASHBOARD_VERIFY_KEY") >>= with_key id

      abbrev with_text : Text → M World ConfigError Settings
      unfolding txt
      with_text t = or_throw (parse_uuid t) (ConfigError.not_uuid (txt "AGENT_ID")) >>= with_id

      abbrev with_option : Option Text → M World ConfigError Settings
      unfolding txt
      with_option o = or_throw o (ConfigError.required (txt "AGENT_ID")) >>= with_text

      abbrev with_url : M World ConfigError Settings
      unfolding txt
      with_url = ask (m.env_var (txt "AGENT_ID")) >>= with_option

      abbrev IsLoaded : Settings → Type 0
      unfolding txt
      IsLoaded x =
          IsKey (txt "DASHBOARD_VERIFY_KEY") x.config.dashboard_verify_key
          × ((t : Text) × (parse_uuid t ≡ some x.config.agent_id))

      with_text-ok :
          (t : Text) (s s' : Agent World) {x : Settings} → with_text t s ≡ (ok x, s') → IsLoaded x
      unfolding txt
      with_text-ok t s s' h =
          let (id, (s1, (h1, k1))) =
            bind-ok with_id (or_throw (parse_uuid t) (ConfigError.not_uuid (txt "AGENT_ID"))) s s'
              h in
          let (key, (s2, (h2, k2))) =
            bind-ok (with_key id) (load_key32 m decode_base64 (txt "DASHBOARD_VERIFY_KEY")) s1 s'
              k1 in
          let (token, (s3, (h3, k3))) =
            bind-ok (load_optional m decode_base64 v url id key)
              (load_secret m (txt "INTERNAL_TOKEN")) s2 s' k2 in
          let (same_key, same_id) = load_optional-ok v url id key token s3 s' k3 in
          let read = or_throw-ok (ConfigError.not_uuid (txt "AGENT_ID")) s s1 (parse_uuid t) h1 in
          (
            subst (IsKey (txt "DASHBOARD_VERIFY_KEY")) (sym same_key)
                (load_key32-ok (txt "DASHBOARD_VERIFY_KEY") s1 s2 h2),
            (t, read ∙ ap some (sym same_id)),
          )

      with_option-ok :
          (o : Option Text) (s s' : Agent World) {x : Settings}
          → with_option o s ≡ (ok x, s')
          → IsLoaded x
      unfolding txt
      with_option-ok none s s' h = absurd (ground arith)
      with_option-ok (some t) s s' h = with_text-ok t s s' h

    -- If the configuration is read, its key to verify commands has 32 bytes and is the base64 reading
    -- of the trimmed secret that `load_secret` reads for `DASHBOARD_VERIFY_KEY` at some point, and its
    -- agent id is the UUID of some text.
    pub load-ok :
        (parse_uuid : Text → Option Text) (v : Text) (s s' : Agent World) {x : Settings}
        → load m decode_base64 parse_uuid v s ≡ (ok x, s')
        → ((raw : Text) × (((t : Agent World) × ((t' : Agent World) × (load_secret m
                      (txt "DASHBOARD_VERIFY_KEY")
                      t
                    ≡ (ok raw, t'))))
              × ((decode_base64 (trim raw) ≡ some x.config.dashboard_verify_key)
                  × (length x.config.dashboard_verify_key ≡ 32))))
          × ((t : Text) × (parse_uuid t ≡ some x.config.agent_id))
    unfolding load txt
    load-ok parse_uuid v s s' h =
        let (url, (s1, (h1, k1))) =
          bind-ok (with_url parse_uuid v) (load_secret m (txt "DATABASE_URL")) s s' h in
        let (o, (s2, (h2, k2))) =
          bind-ok (with_option parse_uuid v url) (ask (m.env_var (txt "AGENT_ID"))) s1 s' k1 in
        with_option-ok parse_uuid v url o s2 s' k2
