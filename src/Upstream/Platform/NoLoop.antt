-- ===== src/Upstream/Platform/NoLoop.antt =====
-- The proxies of the operating system are not the listener, and so no route leads back to it.
use saiai_client.Prelude.{
  Bool, true, false, not, ◌&&◌, ◌||◌, Option, none, some, List, [], ◌∷◌, ◌++◌, Text, codes,
  is_empty, trim, text_eq, to_ascii_lowercase, is_some, if◌then◌else◌,
}
use saiai_client.Prelude.Result.{Result, err, ok, ◌>>=◌}
use saiai_client.Upstream.Str.{split_once, split_any, lines}
use saiai_client.Upstream.Endpoint.{
  Url, Endpoint, SocketAddr, Mode, system, direct_mode, fixed, parse_endpoint,
}
use saiai_client.Upstream.Policy.{
  StaticProxies, Policy, unavailable, EnvProxies, in_context, unless_listener, text_or_empty,
}
use saiai_client.Upstream.Platform.Scutil.{
  Scan, macos_policy, scutil_policy, scutil_endpoint, enabled, value_at, required_value,
  scanned_policy, scan_lines, no_scan,
}
use saiai_client.Upstream.Platform.{
  OsProxy, no_os_proxy, windows, mac_os, unreadable, Inputs, Slots, fill, or_else, slot_proxies,
  server_entry, named_entry, split_entry, add_entry, add_entries, is_separator, no_slots,
  windows_static_proxies, windows_policy, os_policy, mode_policy, policy_from_inputs,
}
use saiai_client.Upstream.Platform.Listener.{
  Avoids, AvoidsBoth, PolicyAvoids, ResultAvoids, checked-ResultAvoids, fill-Avoids, or_else-Avoids,
  system_policy-Avoids, fixed_policy-Avoids,
}

module _ (url_parse : Text → Option Url) (listen : Option SocketAddr) where
  -- The slots of the loop over the entries of `ProxyServer`
  abbrev SlotsAvoid : Slots → Type 0
  SlotsAvoid slots = Avoids listen slots.all × Avoids listen slots.http × Avoids listen slots.https

  abbrev EntryAvoids : Result Text Slots → Type 0
  EntryAvoids (err error) = Unit
  EntryAvoids (ok slots) = SlotsAvoid slots

  with_entry-Avoids :
      (r : Result Text (Option Endpoint)) (f : Option Endpoint → Slots)
      → ResultAvoids listen r
      → ((e : Option Endpoint) → Avoids listen e → SlotsAvoid (f e))
      → EntryAvoids (r >>= (λ e. ok (f e)))
  with_entry-Avoids (err error) f h k = tt
  with_entry-Avoids (ok e) f h k = k e h

  server_entry-Avoids : (value : Text) → ResultAvoids listen (server_entry url_parse listen value)
  server_entry-Avoids value =
      checked-ResultAvoids listen
        (in_context (codes "ProxyServer entry") (parse_endpoint url_parse value))

  if-EntryAvoids :
      (b : Bool) (x y : Result Text Slots)
      → EntryAvoids x
      → EntryAvoids y
      → EntryAvoids (if b then x else y)
  if-EntryAvoids true x y h k = h
  if-EntryAvoids false x y h k = k

  named_entry-Avoids :
      (slots : Slots) (scheme value : Text)
      → SlotsAvoid slots
      → EntryAvoids (named_entry url_parse listen slots scheme value)
  named_entry-Avoids slots scheme value (all, http, https) =
      if-EntryAvoids (text_eq scheme (codes "http")) _ _
        (with_entry-Avoids _ (λ e. record slots { http = fill slots.http e })
          (server_entry-Avoids value) (λ e h. (all, fill-Avoids listen slots.http e http h, https)))
        (if-EntryAvoids (text_eq scheme (codes "https")) _ _
          (with_entry-Avoids _ (λ e. record slots { https = fill slots.https e })
            (server_entry-Avoids value)
            (λ e h. (all, http, fill-Avoids listen slots.https e https h)))
          (if-EntryAvoids (text_eq scheme (codes "socks")) _ _ (all, http, https)
            (all, http, https)))

  split_entry-Avoids :
      (slots : Slots) (entry : Text) (parts : Option (Text × Text))
      → SlotsAvoid slots
      → EntryAvoids (split_entry url_parse listen slots entry parts)
  split_entry-Avoids slots entry none (all, http, https) =
      with_entry-Avoids _ (λ e. record slots { all = fill slots.all e }) (server_entry-Avoids entry)
        (λ e h. (fill-Avoids listen slots.all e all h, http, https))
  split_entry-Avoids slots entry (some parts) h =
      named_entry-Avoids slots (to_ascii_lowercase (trim parts.0)) parts.1 h

  add_entry-Avoids :
      (slots : Slots) (entry : Text)
      → SlotsAvoid slots
      → EntryAvoids (add_entry url_parse listen slots entry)
  unfolding add_entry
  add_entry-Avoids slots entry h =
      if-EntryAvoids (is_empty (trim entry)) _ _ h
        (split_entry-Avoids slots entry (split_once b'=' entry) h)

  bind_entry-Avoids :
      (r : Result Text Slots) (next : Slots → Result Text Slots)
      → EntryAvoids r
      → ((s : Slots) → SlotsAvoid s → EntryAvoids (next s))
      → EntryAvoids (r >>= next)
  bind_entry-Avoids (err error) next h k = tt
  bind_entry-Avoids (ok slots) next h k = k slots h

  add_entries-Avoids :
      (entries : List Text) (slots : Slots)
      → SlotsAvoid slots
      → EntryAvoids (add_entries url_parse listen slots entries)
  unfolding add_entries
  add_entries-Avoids [] slots h = h
  add_entries-Avoids (entry ∷ entries) slots h =
      bind_entry-Avoids (add_entry url_parse listen slots entry) _ (add_entry-Avoids slots entry h)
        (λ slots' h'. add_entries-Avoids entries slots' h')

  abbrev ProxiesAvoid : Result Text StaticProxies → Type 0
  ProxiesAvoid (err error) = Unit
  ProxiesAvoid (ok proxies) = AvoidsBoth listen proxies

  if-ProxiesAvoid :
      (b : Bool) (x y : Result Text StaticProxies)
      → ProxiesAvoid x
      → ProxiesAvoid y
      → ProxiesAvoid (if b then x else y)
  if-ProxiesAvoid true x y h k = h
  if-ProxiesAvoid false x y h k = k

  slot_proxies-Avoid :
      (bypass : Option Text) (slots : Slots)
      → SlotsAvoid slots
      → ProxiesAvoid (slot_proxies bypass slots)
  unfolding slot_proxies
  slot_proxies-Avoid bypass slots (all, http, https) =
      if-ProxiesAvoid
        (slots.socks
          && (not (is_some (or_else slots.https slots.all))
              && not (is_some (or_else slots.http slots.all))))
        _ _ tt
        (
          or_else-Avoids listen slots.http slots.all http all,
          or_else-Avoids listen slots.https slots.all https all,
        )

  after_entries-Avoid :
      (bypass : Option Text) (r : Result Text Slots)
      → EntryAvoids r
      → ProxiesAvoid (r >>= slot_proxies bypass)
  after_entries-Avoid bypass (err error) h = tt
  after_entries-Avoid bypass (ok slots) h = slot_proxies-Avoid bypass slots h

  windows_static_proxies-Avoid :
      (server bypass : Option Text)
      → ProxiesAvoid (windows_static_proxies url_parse listen server bypass)
  unfolding windows_static_proxies
  windows_static_proxies-Avoid server bypass =
      after_entries-Avoid bypass _
        (add_entries-Avoids (split_any is_separator (text_or_empty server)) no_slots (tt, tt, tt))

  if-PolicyAvoids :
      (b : Bool) (x y : Policy)
      → PolicyAvoids listen x
      → PolicyAvoids listen y
      → PolicyAvoids listen (if b then x else y)
  if-PolicyAvoids true x y h k = h
  if-PolicyAvoids false x y h k = k

  windows_policy-Avoids :
      (auto_detect : Bool) (config_url : Option Text) (r : Result Text StaticProxies)
      → ProxiesAvoid r
      → PolicyAvoids listen (windows_policy url_parse listen auto_detect config_url r)
  windows_policy-Avoids auto_detect config_url (err error) h = tt
  windows_policy-Avoids auto_detect config_url (ok proxies) h =
      if-PolicyAvoids (auto_detect || is_some config_url) _ _ h h

  scutil_endpoint-ResultAvoids :
      (values : List (Text × Text)) (prefix : Text)
      → ResultAvoids listen (scutil_endpoint url_parse listen values prefix)
  unfolding scutil_endpoint
  scutil_endpoint-ResultAvoids values prefix =
      if_enabled (enabled values (prefix ++ codes "Enable")) _
        (behind_host (required_value prefix (value_at values (prefix ++ codes "Proxy"))) _)
    where
      if_enabled :
          (b : Bool) (r : Result Text (Option Endpoint))
          → ResultAvoids listen r
          → ResultAvoids listen (if b then r else ok none)
      if_enabled true r h = h
      if_enabled false r h = tt

      behind_host :
          (host : Result Text Text) (f : Text → Result Text Endpoint)
          → ResultAvoids listen
              (host >>= (λ name. f name >>= (λ endpoint. ok (unless_listener listen endpoint))))
      behind_host (err error) f = tt
      behind_host (ok name) f = checked-ResultAvoids listen (f name)

  scutil_policy-Avoids :
      (scan : Scan) (https http : Result Text (Option Endpoint))
      → ResultAvoids listen https
      → ResultAvoids listen http
      → PolicyAvoids listen (scutil_policy url_parse listen scan https http)
  unfolding scutil_policy
  scutil_policy-Avoids scan (err e) http h k = tt
  scutil_policy-Avoids scan (ok https) (err e) h k = tt
  scutil_policy-Avoids scan (ok none) (ok none) h k =
      if-PolicyAvoids (enabled scan.values (codes "SOCKSEnable")) _ _ tt tt
  scutil_policy-Avoids scan (ok none) (ok (some p)) h k = (k, h)
  scutil_policy-Avoids scan (ok (some p)) (ok q) h k = (k, h)

  scanned_policy-Avoids : (scan : Scan) → PolicyAvoids listen (scanned_policy url_parse listen scan)
  scanned_policy-Avoids scan =
      if-PolicyAvoids
        (enabled scan.values (codes "ProxyAutoConfigEnable")
          || enabled scan.values (codes "ProxyAutoDiscoveryEnable"))
        _ _ tt
        (scutil_policy-Avoids scan _ _ (scutil_endpoint-ResultAvoids scan.values (codes "HTTPS"))
          (scutil_endpoint-ResultAvoids scan.values (codes "HTTP")))

  os_policy-Avoids : (os : OsProxy) → PolicyAvoids listen (os_policy url_parse listen os)
  unfolding os_policy macos_policy
  os_policy-Avoids no_os_proxy = tt
  os_policy-Avoids (unreadable error) = tt
  os_policy-Avoids (windows auto_detect config_url server bypass) =
      windows_policy-Avoids auto_detect config_url
        (windows_static_proxies url_parse listen server bypass)
        (windows_static_proxies-Avoid server bypass)
  os_policy-Avoids (mac_os scutil) = scanned_policy-Avoids (scan_lines no_scan (lines scutil))

  mode_policy-Avoids :
      (mode : Mode) (env : EnvProxies) (os : OsProxy)
      → PolicyAvoids listen (mode_policy url_parse listen mode env os)
  mode_policy-Avoids direct_mode env os = tt
  mode_policy-Avoids (fixed endpoint) env os = fixed_policy-Avoids listen url_parse endpoint
  mode_policy-Avoids system env os =
      system_policy-Avoids listen url_parse env (os_policy url_parse listen os)
        (os_policy-Avoids os)

  pub policy_from_inputs-Avoids :
      (inputs : Inputs) → PolicyAvoids listen (policy_from_inputs url_parse listen inputs)
  unfolding policy_from_inputs
  policy_from_inputs-Avoids inputs = of_mode inputs.mode
    where
      of_mode :
          (mode : Result Text Mode)
          → PolicyAvoids listen (elim mode [
            | err error ↦ unavailable error
            | ok m ↦ mode_policy url_parse listen m inputs.env inputs.os
          ])
      of_mode (err error) = tt
      of_mode (ok m) = mode_policy-Avoids m inputs.env inputs.os
