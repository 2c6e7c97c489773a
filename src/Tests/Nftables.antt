-- ===== src/Tests/Nftables.antt =====
-- Examples for the host of the dashboard's URL.
use panel_agent.Common.{◌≡◌, refl, none, some, txt, arith, split_on}
use panel_agent.Nftables.{extract_url_host, host_part, split_slashes, through_bracket}
use panel_agent.Nftables.Host.{Host, extract_url_host-print_url}

extract_url_host-print_url_example :
    extract_url_host (txt "http://[fd00::1]:8080") ≡ some (txt "[fd00::1]")
unfolding txt
extract_url_host-print_url_example =
    extract_url_host-print_url (txt "http:") (Host.bracketed (txt "fd00::1")) (some (txt "8080"))
      (ground arith) (ground arith) (ground arith)

-- A path stays.
keeps_path : extract_url_host (txt "http://10.100.0.1/api") ≡ some (txt "10.100.0.1/api")
unfolding txt extract_url_host host_part split_slashes through_bracket split_on
keeps_path = refl

no_host : extract_url_host (txt "http://") ≡ none
unfolding txt extract_url_host host_part split_slashes through_bracket split_on
no_host = refl
