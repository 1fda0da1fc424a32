-- ===== src/Upstream/Same.antt =====
-- The equality that `derive(PartialEq)` gives the types of tools/saiai-cli/src/upstream_proxy.rs,
-- and that it holds of equal values only.
use saiai_client.Prelude.{
  ◌≡◌, refl, ap, Bool, true, false, ◌&&◌, &&-true, Option, none, some, Text, text_eq, text_eq_iff,
  ◌==◌, ==_iff,
}
use saiai_client.Prelude.Result.{Result, err, ok}
use saiai_client.Upstream.Endpoint.{
  Endpoint, Route, direct_route, proxy, Mode, system, direct_mode, fixed,
}
use saiai_client.Upstream.Policy.{Variable, EnvProxies}
use saiai_client.Upstream.Platform.{OsProxy, no_os_proxy, windows, mac_os, unreadable, Inputs}

-- The test is true of equal values only.
abbrev pub Sound {ℓ} : {A : Type ℓ} → (A → A → Bool) → Type ℓ
Sound {A = A} same = (a b : A) → same a b ≡ true → a ≡ b

abbrev option_eq {ℓ} : {A : Type ℓ} → (A → A → Bool) → Option A → Option A → Bool
option_eq same none none = true
option_eq same none (some b) = false
option_eq same (some a) none = false
option_eq same (some a) (some b) = same a b

option_eq-Sound {ℓ} : {A : Type ℓ} (same : A → A → Bool) → Sound same → Sound (option_eq same)
option_eq-Sound same h none none e = refl
option_eq-Sound same h none (some b) e = cc
option_eq-Sound same h (some a) none e = cc
option_eq-Sound same h (some a) (some b) e = ap some (h a b e)

abbrev bool_eq : Bool → Bool → Bool
bool_eq true b = b
bool_eq false true = false
bool_eq false false = true

bool_eq-Sound : Sound bool_eq
bool_eq-Sound true true e = refl
bool_eq-Sound true false e = cc
bool_eq-Sound false true e = cc
bool_eq-Sound false false e = refl

text_eq-Sound : Sound text_eq
text_eq-Sound s t e = (text_eq_iff s t).0 e

abbrev text_option_eq : Option Text → Option Text → Bool
text_option_eq a b = option_eq text_eq a b

text_option_eq-Sound : Sound text_option_eq
text_option_eq-Sound = option_eq-Sound text_eq text_eq-Sound

abbrev endpoint_eq : Endpoint → Endpoint → Bool
endpoint_eq a b =
    text_eq a.host b.host
    && (a.port == b.port && (text_eq a.username b.username && text_option_eq a.password b.password))

endpoint_eq-Sound : Sound endpoint_eq
endpoint_eq-Sound a b e =
    let (host, e') = &&-true (text_eq a.host b.host) _ e in
    let (port, e'') = &&-true (a.port == b.port) _ e' in
    let (username, password) = &&-true (text_eq a.username b.username) _ e'' in
    cc (
      text_eq-Sound a.host b.host host,
      (==_iff a.port b.port).0 port,
      text_eq-Sound a.username b.username username,
      text_option_eq-Sound a.password b.password password,
    )

abbrev pub route_eq : Route → Route → Bool
route_eq direct_route direct_route = true
route_eq direct_route (proxy b) = false
route_eq (proxy a) direct_route = false
route_eq (proxy a) (proxy b) = endpoint_eq a b

pub route_eq-Sound : Sound route_eq
route_eq-Sound direct_route direct_route e = refl
route_eq-Sound direct_route (proxy b) e = cc
route_eq-Sound (proxy a) direct_route e = cc
route_eq-Sound (proxy a) (proxy b) e = ap proxy (endpoint_eq-Sound a b e)

abbrev mode_eq : Result Text Mode → Result Text Mode → Bool
mode_eq (err a) (err b) = text_eq a b
mode_eq (ok system) (ok system) = true
mode_eq (ok direct_mode) (ok direct_mode) = true
mode_eq (ok (fixed a)) (ok (fixed b)) = endpoint_eq a b
mode_eq a b = false

mode_eq-Sound : Sound mode_eq
mode_eq-Sound (err a) (err b) e = ap err (text_eq-Sound a b e)
mode_eq-Sound (err a) (ok b) e = cc
mode_eq-Sound (ok system) (err b) e = cc
mode_eq-Sound (ok system) (ok system) e = refl
mode_eq-Sound (ok system) (ok direct_mode) e = cc
mode_eq-Sound (ok system) (ok (fixed b)) e = cc
mode_eq-Sound (ok direct_mode) (err b) e = cc
mode_eq-Sound (ok direct_mode) (ok system) e = cc
mode_eq-Sound (ok direct_mode) (ok direct_mode) e = refl
mode_eq-Sound (ok direct_mode) (ok (fixed b)) e = cc
mode_eq-Sound (ok (fixed a)) (err b) e = cc
mode_eq-Sound (ok (fixed a)) (ok system) e = cc
mode_eq-Sound (ok (fixed a)) (ok direct_mode) e = cc
mode_eq-Sound (ok (fixed a)) (ok (fixed b)) e =
    ap (λ (x : Endpoint). ok (fixed x)) (endpoint_eq-Sound a b e)

abbrev variable_eq : Variable → Variable → Bool
variable_eq a b = option_eq (λ x y. text_eq x.0 y.0 && text_eq x.1 y.1) a b

variable_eq-Sound : Sound variable_eq
variable_eq-Sound =
    option_eq-Sound (λ x y. text_eq x.0 y.0 && text_eq x.1 y.1)
      (λ x y e.
        let (name, value) = &&-true (text_eq x.0 y.0) _ e in
        cc (text_eq-Sound x.0 y.0 name, text_eq-Sound x.1 y.1 value))

abbrev env_eq : EnvProxies → EnvProxies → Bool
env_eq a b =
    variable_eq a.https b.https
    && (variable_eq a.http b.http
        && (variable_eq a.all b.all && text_option_eq a.no_proxy b.no_proxy))

env_eq-Sound : Sound env_eq
env_eq-Sound a b e =
    let (https, e') = &&-true (variable_eq a.https b.https) _ e in
    let (http, e'') = &&-true (variable_eq a.http b.http) _ e' in
    let (all, no_proxy) = &&-true (variable_eq a.all b.all) _ e'' in
    cc (
      variable_eq-Sound a.https b.https https,
      variable_eq-Sound a.http b.http http,
      variable_eq-Sound a.all b.all all,
      text_option_eq-Sound a.no_proxy b.no_proxy no_proxy,
    )

abbrev os_eq : OsProxy → OsProxy → Bool
os_eq no_os_proxy no_os_proxy = true
os_eq (mac_os a) (mac_os b) = text_eq a b
os_eq (unreadable a) (unreadable b) = text_eq a b
os_eq (windows d u s o) (windows d' u' s' o') =
    bool_eq d d' && (text_option_eq u u' && (text_option_eq s s' && text_option_eq o o'))
os_eq a b = false

os_eq-Sound : Sound os_eq
os_eq-Sound no_os_proxy no_os_proxy e = refl
os_eq-Sound no_os_proxy (windows d u s o) e = cc
os_eq-Sound no_os_proxy (mac_os b) e = cc
os_eq-Sound no_os_proxy (unreadable b) e = cc
os_eq-Sound (mac_os a) no_os_proxy e = cc
os_eq-Sound (mac_os a) (windows d u s o) e = cc
os_eq-Sound (mac_os a) (mac_os b) e = ap mac_os (text_eq-Sound a b e)
os_eq-Sound (mac_os a) (unreadable b) e = cc
os_eq-Sound (unreadable a) no_os_proxy e = cc
os_eq-Sound (unreadable a) (windows d u s o) e = cc
os_eq-Sound (unreadable a) (mac_os b) e = cc
os_eq-Sound (unreadable a) (unreadable b) e = ap unreadable (text_eq-Sound a b e)
os_eq-Sound (windows d u s o) no_os_proxy e = cc
os_eq-Sound (windows d u s o) (mac_os b) e = cc
os_eq-Sound (windows d u s o) (unreadable b) e = cc
os_eq-Sound (windows d u s o) (windows d' u' s' o') e =
    let (detect, e') = &&-true (bool_eq d d') _ e in
    let (url, e'') = &&-true (text_option_eq u u') _ e' in
    let (server, over) = &&-true (text_option_eq s s') _ e'' in
    cc (
      bool_eq-Sound d d' detect,
      text_option_eq-Sound u u' url,
      text_option_eq-Sound s s' server,
      text_option_eq-Sound o o' over,
    )

abbrev pub inputs_eq : Inputs → Inputs → Bool
inputs_eq a b = mode_eq a.mode b.mode && (env_eq a.env b.env && os_eq a.os b.os)

pub inputs_eq-Sound : Sound inputs_eq
inputs_eq-Sound a b e =
    let (mode, e') = &&-true (mode_eq a.mode b.mode) _ e in
    let (env, os) = &&-true (env_eq a.env b.env) _ e' in
    cc (mode_eq-Sound a.mode b.mode mode, env_eq-Sound a.env b.env env, os_eq-Sound a.os b.os os)
