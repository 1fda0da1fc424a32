-- ===== src/Upstream/Tunnel.antt =====
-- The CONNECT exchange of `open_tunnel` in tools/saiai-cli/src/upstream_proxy.rs, over the bytes
-- that the proxy sends.
pub mod Head
use saiai_client.Prelude.{
  ℕ, zero, suc, ◌+◌, ◌-◌, ◌*◌, Bool, true, false, not, ◌&&◌, ◌||◌, Option, none, some, List, [],
  ◌∷◌, ◌++◌, Text, codes, starts_with, ends_with, trim_end_while, split, length, ltb, leb, in_range,
  ◌==◌, if◌then◌else◌,
}
use saiai_client.Prelude.Result.{Result, err, ok, ◌>>=◌}
use saiai_client.Upstream.Str.{parse_uint}
use saiai_client.Upstream.Endpoint.Percent.{is_utf8}

-- Why the exchange failed
pub data TunnelError : Type 0 where
  head_too_long : TunnelError
  closed : TunnelError
  not_text : TunnelError
  unexpected_protocol : TunnelError
  malformed_status : TunnelError
  requires_authentication : TunnelError
  refused : ℕ → TunnelError

abbrev pub max_response_head : ℕ
max_response_head = 16 * 1024

abbrev pub head_end : List ℕ
head_end = codes "\r\n\r\n"

-- The loop, from `head` on the bytes that are still to come: the head, and what is left for the
-- tunnel. The bytes are at an end where the connection is closed.
unfoldable pub read_head : ℕ → List ℕ → List ℕ → Result TunnelError (List ℕ × List ℕ)
read_head limit head [] = if leb limit (length head) then err head_too_long else err closed
read_head limit head (byte ∷ bytes) =
    let next = head ++ byte ∷ [] in
    if leb limit (length head) then err head_too_long else elim (ends_with next head_end) [
      | true ↦ ok (next, bytes)
      | false ↦ read_head limit next bytes
    ]

unfoldable pub read_response_head : List ℕ → Result TunnelError (List ℕ × List ℕ)
read_response_head bytes = read_head max_response_head [] bytes

abbrev first_part : List Text → Text
first_part [] = []
first_part (part ∷ parts) = part

abbrev second_part : List Text → Text
second_part [] = []
second_part (part ∷ []) = []
second_part (part ∷ other ∷ parts) = other

abbrev status_code : Text → Result TunnelError ℕ
status_code status =
    if length status == 3
    then elim (parse_uint 0xffff status) [ none ↦ err malformed_status | some n ↦ ok n ]
    else err malformed_status

abbrev status_parts : List Text → Result TunnelError ℕ
status_parts parts =
    if starts_with (first_part parts) (codes "HTTP/1.")
    then status_code (second_part parts)
    else err unexpected_protocol

unfoldable pub parse_status : List ℕ → Result TunnelError ℕ
parse_status head =
    let line = first_part (split b'\n' head) in
    if is_utf8 line
    then status_parts (split b' ' (trim_end_while (λ c. c == b'\r') line))
    else err not_text

-- `match status`
abbrev pub tunnel_status : ℕ → Result TunnelError (Unit {0})
tunnel_status status =
    if in_range 200 299 status
    then ok tt
    else if status == 407
    then err requires_authentication
    else err (refused status)

-- What `open_tunnel` makes of the proxy's answer: the bytes that the tunnel starts with
unfoldable pub tunnel_from : List ℕ → Result TunnelError (List ℕ)
tunnel_from bytes =
    read_response_head bytes
    >>= (λ r. parse_status r.0 >>= (λ status. tunnel_status status >>= (λ accepted. ok r.1)))
