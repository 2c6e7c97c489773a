-- ===== src/Update/Soundness.antt =====
-- What an installed update has passed.
use panel_agent.Common.{
  decimal, ℕ, ◌≤◌, ◌≡◌, inl, inr, sym, ap, ◌∙◌, true, false, Option, some, List, ◌++◌, Text, txt,
  any, length, arith, Option-cases,
}
use panel_agent.Runtime.{Env, Agent, Outcome, ok, M, ◌>>=◌, ◌>>◌}
use panel_agent.Runtime.Web.{Web, Ip, Client, UrlParts}
use panel_agent.Runtime.Laws.{bind-ok}
use panel_agent.Update.{
  UpdateError, size_limit, first_of, is_allowed, is_private_ip, validate_github_url,
  build_ssrf_safe_client, download_bytes, verify_signature, load_verify_key, Exit, install,
  perform_update,
}

module _ (e : Env) (web : Web e.machine.World e.json.Value)
    (decode_base64 : Text → Option Text) where
  open e use {machine, crypto, json, config}

  validate-ok :
      (url : Text) (s s' : Agent machine.World)
      → validate_github_url e web url s ≡ (ok tt, s')
      → (is_allowed url ≡ true) × (s' ≡ s)
  unfolding validate_github_url
  validate-ok url s s' h = (ground arith, ground arith)

  download-ok :
      (client : Client) (url bytes : Text) (s s' : Agent machine.World)
      → download_bytes e web client url s ≡ (ok bytes, s')
      → (length bytes ≤ size_limit) × ((s'.app ≡ s.app) × (s'.db ≡ s.db))
  unfolding download_bytes
  download-ok client url bytes s s' h = (ground arith, (ground arith, ground arith))

  verify-ok :
      (binary sig : Text) (s s' : Agent machine.World)
      → verify_signature e decode_base64 binary sig s ≡ (ok tt, s')
      → ((length sig ≡ 64)
          × ((key : Text) × ((decode_base64 (txt "APh+kh61dJeT0HzG+KQXELzDjK4ccvqY9K+FptOZ3+Y=")
                  ≡ some key)
                × (crypto.verify key binary sig ≡ true))))
        × (s' ≡ s)
  unfolding verify_signature load_verify_key
  verify-ok binary sig s s' h =
      elim (Option-cases (decode_base64 (txt "APh+kh61dJeT0HzG+KQXELzDjK4ccvqY9K+FptOZ3+Y="))) [
        | inl bad ↦ absurd (ground arith)
        | inr (key, decoded) ↦ ((ground arith, (key, (decoded, ground arith))), ground arith)
      ]

  -- The client reaches the host of the URL at the first of the addresses that the host was looked up
  -- to, none of which is private.
  abbrev pub IsPinned : Text → Client → Type 0
  IsPinned url client =
      (parsed : UrlParts) × (host : Text) × (port : ℕ) × (addrs : List Ip) × (w : machine.World)
      × (web.parse_url url ≡ some parsed)
      × (parsed.host ≡ some host)
      × (parsed.port ≡ some port)
      × ((web.lookup_host (host ++ (txt ":" ++ decimal port)) w).0 ≡ some addrs)
      × (first_of addrs ≡ some client.address)
      × (client.host ≡ host)
      × (any is_private_ip addrs ≡ false)

  abbrev resolved : Text → ℕ → Agent machine.World → Option (List Ip)
  resolved host port s = (web.lookup_host (host ++ (txt ":" ++ decimal port)) s.world).0

  client-ok :
      (url : Text) (client : Client) (s s' : Agent machine.World)
      → build_ssrf_safe_client e web url s ≡ (ok client, s')
      → IsPinned url client
  unfolding build_ssrf_safe_client
  client-ok url client s s' h = elim (Option-cases (web.parse_url url)) [
    | inl bad ↦ absurd (ground arith)
    | inr (parsed, read) ↦ elim (Option-cases parsed.host) [
      | inl bad ↦ absurd (ground arith)
      | inr (host, hosted) ↦ elim (Option-cases parsed.port) [
        | inl bad ↦ absurd (ground arith)
        | inr (port, ported) ↦ elim (Option-cases (resolved host port s)) [
          | inl bad ↦ absurd (ground arith)
          | inr (addrs, found) ↦ elim (Option-cases (first_of addrs)) [
            | inl bad ↦ absurd (ground arith)
            | inr (ip, first) ↦ (
              parsed,
              host,
              port,
              addrs,
              s.world,
              read,
              hosted,
              ported,
              found,
              first ∙ ap some (ground arith),
              ground arith,
              ground arith,
            )
          ]
        ]
      ]
    ]
  ]

  abbrev with_binary : Client → Text → Text → M machine.World UpdateError Exit
  with_binary sig_client sig_url binary = do
    sig_bytes ← download_bytes e web sig_client sig_url
    verify_signature e decode_base64 binary sig_bytes
    install e binary

  abbrev with_clients : Text → Text → Client → Client → M machine.World UpdateError Exit
  with_clients download_url sig_url bin_client sig_client = do
    binary ← download_bytes e web bin_client download_url
    with_binary sig_client sig_url binary

  abbrev with_urls : Text → Text → M machine.World UpdateError Exit
  with_urls download_url sig_url = do
    bin_client ← build_ssrf_safe_client e web download_url
    sig_client ← build_ssrf_safe_client e web sig_url
    with_clients download_url sig_url bin_client sig_client

  abbrev pub release_key : Option Text
  release_key = decode_base64 (txt "APh+kh61dJeT0HzG+KQXELzDjK4ccvqY9K+FptOZ3+Y=")

  -- What an update went through before the swap of the binary, which was made with what was
  -- downloaded and verified.
  abbrev pub IsVerified : Text → Text → Outcome UpdateError Exit × Agent machine.World → Type 0
  IsVerified download_url sig_url p =
      (is_allowed download_url ≡ true)
      × (is_allowed sig_url ≡ true)
      × (bin_client : Client) × (sig_client : Client) × IsPinned download_url bin_client
      × IsPinned sig_url sig_client
      × (binary : Text) × (sig : Text) × (t : Agent machine.World) × (u : Agent machine.World)
      × (v : Agent machine.World) × (download_bytes e web bin_client download_url t
          ≡ (ok binary, u))
      × (length binary ≤ size_limit)
      × (download_bytes e web sig_client sig_url u ≡ (ok sig, v))
      × (length sig ≡ 64)
      × (key : Text) × (release_key ≡ some key)
      × (crypto.verify key binary sig ≡ true)
      × (p ≡ install e binary v)

  -- An update is installed only if both of its URLs are on GitHub's hosts, both were fetched by a
  -- client that reaches the host of the URL, redirects apart, at the first of the addresses that it
  -- was looked up to, none of them private, the binary has at most 200 MiB, and the signature, of 64
  -- bytes, is one of the binary under the key that is compiled in; and what is installed is that
  -- binary.
  pub perform_update-ok :
      (version download_url sig_url : Text) (exit : Exit) (s s' : Agent machine.World)
      → perform_update e web decode_base64 version download_url sig_url s ≡ (ok exit, s')
      → IsVerified download_url sig_url (ok exit, s')
  unfolding perform_update
  perform_update-ok version download_url sig_url exit s s' h =
      let (_, (s1, (e1, h1))) =
        bind-ok (λ _. validate_github_url e web sig_url >>= λ _. with_urls download_url sig_url)
          (validate_github_url e web download_url) s s' h in
      let (_, (s2, (e2, h2))) =
        bind-ok (λ _. with_urls download_url sig_url) (validate_github_url e web sig_url) s1 s'
          h1 in
      let (bin_client, (s3, (e3, h3))) =
        bind-ok (λ c. build_ssrf_safe_client e web sig_url >>= with_clients download_url sig_url c)
          (build_ssrf_safe_client e web download_url) s2 s' h2 in
      let (sig_client, (s4, (e4, h4))) =
        bind-ok (with_clients download_url sig_url bin_client)
          (build_ssrf_safe_client e web sig_url) s3 s' h3 in
      let (binary, (s5, (e5, h5))) =
        bind-ok (with_binary sig_client sig_url) (download_bytes e web bin_client download_url) s4
          s' h4 in
      let (sig, (s6, (e6, h6))) =
        bind-ok (λ sig. verify_signature e decode_base64 binary sig >>= λ _. install e binary)
          (download_bytes e web sig_client sig_url) s5 s' h5 in
      let (_, (s7, (e7, h7))) =
        bind-ok (λ _. install e binary) (verify_signature e decode_base64 binary sig) s6 s' h6 in
      let ((sixty_four, (key, (decoded, verified))), same) = verify-ok binary sig s6 s7 e7 in
      (
        (validate-ok download_url s s1 e1).0,
        (validate-ok sig_url s1 s2 e2).0,
        bin_client,
        sig_client,
        client-ok download_url bin_client s2 s3 e3,
        client-ok sig_url sig_client s3 s4 e4,
        binary,
        sig,
        s4,
        s5,
        s6,
        e5,
        (download-ok bin_client download_url binary s4 s5 e5).0,
        e6,
        sixty_four,
        key,
        decoded,
        verified,
        sym h7 ∙ ap (install e binary) same,
      )
