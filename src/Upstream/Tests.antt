-- ===== src/Upstream/Tests.antt =====
-- Runs of the upstream proxy's functions.
use saiai_client.Prelude.{
  ℕ, suc, ◌+◌, ◌/◌, ◌^◌, ◌≡◌, refl, true, false, ◌||◌, Option, none, some, List, [], ◌∷◌, Text,
  codes, ◌⊎◌, ◌↔◌, split, All, strip_prefix, starts_with, arith,
}
use saiai_client.Prelude.Result.{Result, ok}
use saiai_client.Upstream.Str.{split_once, parse_uint}
use saiai_client.Upstream.Ip.{parse_ip, v4, v6}
use saiai_client.Upstream.Glob.{glob_matches, glob_round, glob_loop, rounds, start}
use saiai_client.Upstream.Glob.Meaning.{glob_means}
use saiai_client.Upstream.Glob.Index.{glob_loop-start, glob_matches_lem}
use saiai_client.Upstream.Network.{ip_in_network, network_mask}
use saiai_client.Upstream.Network.Prefix.{ip_in_network_v4, ip_in_network_v6}
use saiai_client.Upstream.Endpoint.{
  Url, SocketAddr, Route, direct_route, system, is_loopback_target, parse_endpoint, is_listener,
  host_port, normalize_host,
}
use saiai_client.Upstream.Endpoint.Percent.{percent_decode, decode_bytes}
use saiai_client.Upstream.Endpoint.Percent.Laws.{plain, escape, percent_decode-pieces}
use saiai_client.Upstream.Bypass.{
  BypassEntry, domain, default_bypass, parse_bypass, entry_rules, entry_rule, split_entry_port,
  rule_of, parse_network, bypass_matches, rule_matches,
}
use saiai_client.Upstream.Bypass.Laws.{
  bare, IsBelow, domain_rule, IsInWidth, parse_bypass-IsInWidth,
}
use saiai_client.Upstream.Policy.{
  StaticProxies, EnvProxies, direct, system_policy, env_policy, scheme_proxy, parse_env,
}
use saiai_client.Upstream.Platform.{Inputs, no_os_proxy, windows, policy_from_inputs}
use saiai_client.Upstream.Snapshot.{route_blocking, pac_decision}
use saiai_client.Upstream.Snapshot.Routes.{RouteAvoids, pac_decision-RouteAvoids}
use saiai_client.Upstream.Snapshot.Direct.{Unused, configured, system_policy-direct}
use saiai_client.Upstream.Clients.{unresolved, publish_all, client}
use saiai_client.Upstream.Clients.Laws.{publish_all-last, Served, client-Served}
use saiai_client.Upstream.Clients.Routes.{publish_all-RouteAvoids}
use saiai_client.Upstream.Tunnel.{
  read_response_head, read_head, parse_status, max_response_head, tunnel_from,
}
use saiai_client.Upstream.Tunnel.Head.{
  ReadsTo, OpensWith, read_response_head-ReadsTo, tunnel_from-OpensWith,
}

parse_ip_plain : parse_ip (codes "10.0.0.255") ≡ some (v4 0x0a0000ff)
parse_ip_plain = refl

parse_ip_leading_zero : parse_ip (codes "10.0.0.05") ≡ none
parse_ip_leading_zero = refl

parse_ip_short : parse_ip (codes "10.0.0") ≡ none
parse_ip_short = refl

parse_ip_gap : parse_ip (codes "fe80::1:a") ≡ some (v6 0xfe80000000000000000000000001000a)
parse_ip_gap = refl

parse_ip_mapped : parse_ip (codes "::ffff:1.2.3.4") ≡ some (v6 0xffff01020304)
parse_ip_mapped = refl

parse_ip_whole : parse_ip (codes "1:2:3:4:5:6:7:8") ≡ some (v6 0x00010002000300040005000600070008)
parse_ip_whole = refl

host_port_v6 : host_port (codes "::1") 8080 ≡ codes "[::1]:8080"
unfolding host_port
host_port_v6 = refl

normalize_host_brackets : normalize_host (codes " [FE80::1] ") ≡ codes "fe80::1"
unfolding normalize_host
normalize_host_brackets = refl

-- A star in the text is taken for the literal star of the pattern.
glob_star_in_text : glob_matches (codes "*") (codes "*a") ≡ false
unfolding glob_matches glob_loop glob_round
glob_star_in_text = refl

glob_matches_lem_example :
    glob_matches (codes "a*c?*") (codes "abcbcd") ≡ glob_means (codes "a*c?*") (codes "abcbcd")
glob_matches_lem_example =
    glob_matches_lem (codes "a*c?*") (codes "abcbcd")
      (omega arith, (omega arith, (omega arith, (omega arith, (omega arith, (omega arith, tt))))))

glob_loop-start_example :
    glob_loop (suc (rounds 5 2 + 2)) (codes "*b") (codes "ab") start
    ≡ some (glob_means (codes "*b") (codes "ab"))
glob_loop-start_example = glob_loop-start (codes "*b") (codes "ab") (omega arith, (omega arith, tt))

ip_in_network_v4_example :
    (ip_in_network (v4 0x0a000105) (v4 0x0a000000) 16 ≡ true)
    ↔ (0x0a000105 / 2 ^ 16 ≡ 0x0a000000 / 2 ^ 16)
ip_in_network_v4_example =
    ip_in_network_v4 0x0a000105 0x0a000000 16 (omega arith) (omega arith) (omega arith)

ip_in_network_v6_example :
    (ip_in_network (v6 1) (v6 0xfe800000000000000000000000000000) 10 ≡ true)
    ↔ (1 / 2 ^ 118 ≡ 0xfe800000000000000000000000000000 / 2 ^ 118)
ip_in_network_v6_example =
    ip_in_network_v6 1 0xfe800000000000000000000000000000 10 (omega arith) (omega arith)
      (omega arith)

percent_decode-pieces_example : percent_decode (codes "a%c3%A9") ≡ some (b'a' ∷ 0xc3 ∷ 0xa9 ∷ [])
percent_decode-pieces_example =
    percent_decode-pieces (plain b'a' ∷ escape b'c' b'3' 12 3 ∷ escape b'A' b'9' 10 9 ∷ [])
      (omega arith, ((refl, refl), ((refl, refl), tt))) refl

percent_decode_plus : percent_decode (codes "%+f") ≡ some (15 ∷ [])
unfolding percent_decode decode_bytes
percent_decode_plus = refl

domain_rule_example :
    (rule_matches true (codes "a.example.com") none (domain (codes ".example.com")) ≡ true) ↔ (
      (codes "a.example.com" ≡ bare (codes ".example.com"))
      ⊎ (((true || starts_with (codes ".example.com") (codes ".")) ≡ true)
          × IsBelow (codes "a.example.com") (bare (codes ".example.com"))))
domain_rule_example = domain_rule true (codes "a.example.com") (codes ".example.com") none

abbrev bypass_entries : List Text
bypass_entries = codes "10.0.0.0/8" ∷ codes "169.254/16" ∷ codes "::1/200" ∷ codes "*.local" ∷ []

parse_bypass-IsInWidth_example :
    All (λ (entry : BypassEntry). IsInWidth entry.rule) (parse_bypass bypass_entries true).rules
parse_bypass-IsInWidth_example = parse_bypass-IsInWidth bypass_entries true

bypass_abbreviated :
    bypass_matches (parse_bypass (codes "169.254/16" ∷ []) true) (codes "169.254.3.4") 80 ≡ true
unfolding bypass_matches parse_bypass entry_rules entry_rule split_entry_port rule_matches rule_of
    parse_network normalize_host ip_in_network network_mask
bypass_abbreviated = refl

-- `http://host:port` is all that this parser reads.
abbrev url_at : Option (Text × Text) → Option Url
url_at none = none
url_at (some parts) = some (record {
  scheme = codes "http";
  host = some parts.0;
  path = [];
  query = none;
  username = [];
  password = none;
  port_or_known_default = parse_uint 0xffff parts.1;
})

abbrev url_parse : Text → Option Url
url_parse text = elim (strip_prefix text (codes "http://")) [
  | none ↦ none
  | some rest ↦ url_at (split_once b':' rest)
]

abbrev listen_here : Option SocketAddr
listen_here = some (record { ip = v4 0x7f000001; port = 9000 })

abbrev no_env : EnvProxies
no_env = record { https = none; http = none; all = none; no_proxy = none }

abbrev through_proxy : Inputs
through_proxy = record {
  mode = ok system;
  env = record no_env { https = some (codes "HTTPS_PROXY", codes "http://proxy:3128") };
  os = no_os_proxy;
}

abbrev through_windows : Inputs
through_windows = record {
  mode = ok system;
  env = no_env;
  os = windows false none (some (codes "http=proxy:80;https=localhost:9000")) none;
}

publish_all-RouteAvoids_example : RouteAvoids listen_here (
    route_blocking
      (publish_all url_parse listen_here
        (unresolved listen_here)
        (through_windows ∷ through_proxy ∷ [])).current
      true
      (codes "example.com")
      443)
publish_all-RouteAvoids_example =
    publish_all-RouteAvoids url_parse listen_here (through_windows ∷ through_proxy ∷ []) true
      (codes "example.com") 443

publish_all-last_example :
    (publish_all url_parse listen_here
      (unresolved listen_here)
      (through_windows ∷ through_proxy ∷ [])).current.policy
    ≡ policy_from_inputs url_parse listen_here through_proxy
publish_all-last_example =
    publish_all-last url_parse listen_here (unresolved listen_here) (through_windows ∷ [])
      through_proxy tt

abbrev no_proxies : StaticProxies
no_proxies = record {
  http = none;
  https = none;
  http_error = none;
  https_error = none;
  bypass = default_bypass;
}

pac_decision-RouteAvoids_example :
    RouteAvoids listen_here
      (pac_decision url_parse
        (λ _. [])
        (ok (some (codes "localhost:9000;proxy:80")))
        true
        no_proxies
        listen_here
        true
        (codes "example.com")
        443).0
pac_decision-RouteAvoids_example =
    pac_decision-RouteAvoids listen_here url_parse (λ _. [])
      (ok (some (codes "localhost:9000;proxy:80"))) true no_proxies true (codes "example.com") 443
      (tt, tt)

abbrev own_proxy : EnvProxies
own_proxy = record no_env { https = some (codes "HTTPS_PROXY", codes "http://localhost:9000") }

own_proxy_direct :
    route_blocking
      (record {
        generation = 1;
        policy = system_policy url_parse listen_here own_proxy direct;
        listen = listen_here;
      })
      true
      (codes "example.com")
      443
    ≡ ok direct_route
unfolding route_blocking system_policy is_loopback_target normalize_host env_policy scheme_proxy
    parse_env parse_endpoint percent_decode decode_bytes is_listener
own_proxy_direct = refl

system_policy-direct_example :
    (is_loopback_target (codes "example.com") ≡ true)
    ⊎ ((bypass_matches (parse_bypass (split b',' []) true) (codes "example.com") 443 ≡ true)
        ⊎ (Unused url_parse listen_here (configured true own_proxy)
            × Unused url_parse listen_here none))
system_policy-direct_example =
    system_policy-direct url_parse listen_here own_proxy direct 1 true (codes "example.com") 443
      own_proxy_direct

abbrev numbered : ℕ → Route → Result Text ℕ
numbered generation route = ok generation

abbrev BuiltAt : ℕ → Route → ℕ → Type 0
BuiltAt generation route c = c ≡ generation

client-Served_example :
    Served numbered BuiltAt 3 direct_route
      (record { generation = 2; clients = (direct_route, 2) ∷ [] })
      (client numbered (record { generation = 2; clients = (direct_route, 2) ∷ [] }) 3 direct_route)
client-Served_example =
    client-Served numbered BuiltAt (record { generation = 2; clients = (direct_route, 2) ∷ [] }) 3
      direct_route (refl, tt) (λ g r c e. cc (e))

abbrev answer : List ℕ
answer = codes "HTTP/1.1 200 OK\r\n\r\nhello"

abbrev answer_head : List ℕ
answer_head = codes "HTTP/1.1 200 OK\r\n\r\n"

read_response_head-ReadsTo_example :
    (read_response_head answer ≡ ok (answer_head, codes "hello"))
    ↔ ReadsTo max_response_head [] answer (answer_head, codes "hello")
read_response_head-ReadsTo_example = read_response_head-ReadsTo answer answer_head (codes "hello")

answer_opens : tunnel_from answer ≡ ok (codes "hello")
unfolding tunnel_from read_response_head read_head parse_status
answer_opens = refl

tunnel_from-OpensWith_example : OpensWith answer (codes "hello")
tunnel_from-OpensWith_example = tunnel_from-OpensWith answer (codes "hello") answer_opens
