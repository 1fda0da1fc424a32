-- ===== src/Upstream/Tunnel/Head.antt =====
-- The response head is read up to its first end and no further, and within its limit.
use mathlib.Core.Path.{subst}
use saiai_client.Prelude.{
  ℕ, ◌≤◌, ◌<◌, ◌≡◌, refl, ap, ◌∙◌, ◌↔◌, Bool, true, false, Bool-cases, inl, inr, List, [], ◌∷◌,
  ◌++◌, append_assoc, ends_with, length, length-append, leb, in_range, ◌==◌, arith, if◌then◌else◌,
}
use saiai_client.Prelude.Result.{Result, err, ok, >>=-eq-ok}
use saiai_client.Upstream.Tunnel.{
  TunnelError, requires_authentication, refused, tunnel_status, tunnel_from, parse_status, head_end,
  read_head, read_response_head, max_response_head,
}

-- The end of the head stands behind `read` for the first time, when `head` was read before.
abbrev pub FirstEnd : List ℕ → List ℕ → Type 0
FirstEnd head [] = ends_with head head_end ≡ true
FirstEnd head (byte ∷ later) =
    (ends_with head head_end ≡ false) × FirstEnd (head ++ byte ∷ []) later

-- What was read: up to the first end behind at least one more byte, within the limit
abbrev pub ReadsTo : ℕ → List ℕ → List ℕ → List ℕ × List ℕ → Type 0
ReadsTo limit head bytes (whole, rest) =
    (byte : ℕ) × (later : List ℕ) × (whole ≡ head ++ byte ∷ later)
    × (bytes ≡ byte ∷ later ++ rest)
    × FirstEnd (head ++ byte ∷ []) later
    × (length whole ≤ limit)

too_long : (limit n : ℕ) → leb limit n ≡ false → n < limit
too_long limit n h = ground (arith, h)

not_long : (limit n : ℕ) → n < limit → leb limit n ≡ false
not_long limit n h = ground (arith, h)

read_head-ReadsTo :
    (limit : ℕ) (head bytes whole rest : List ℕ)
    → read_head limit head bytes ≡ ok (whole, rest)
    → ReadsTo limit head bytes (whole, rest)
unfolding read_head
read_head-ReadsTo limit head [] whole rest h = elim (Bool-cases (leb limit (length head))) [
  | inl full ↦ cc (h, full)
  | inr fits ↦ cc (h, fits)
]
read_head-ReadsTo limit head (byte ∷ bytes) whole rest h =
    elim (Bool-cases (leb limit (length head))) [
      | inl full ↦ cc (rw (read_head, full) at h)
      | inr fits ↦ elim (Bool-cases (ends_with (head ++ byte ∷ []) head_end)) [
        | inl ended ↦
            let done : ◌≡◌ {A = Result TunnelError (List ℕ × List ℕ)}
                (ok (head ++ byte ∷ [], bytes)) (ok (whole, rest)) =
              rw (read_head, fits, ended) at h in
            let same : whole ≡ head ++ byte ∷ [] = cc done in
            (
              byte,
              [],
              same,
              cc done,
              ended,
              omega (
                arith,
                ap (λ (l : List ℕ). length l) same,
                length-append {0} head (byte ∷ []),
                too_long limit (length head) fits,
              ),
            )
        | inr further ↦
            let (next, later, e, e', first, short) =
              read_head-ReadsTo limit (head ++ byte ∷ []) bytes whole rest
                (rw (read_head, fits, further) at h) in
            (
              byte,
              next ∷ later,
              e ∙ append_assoc head (byte ∷ []) (next ∷ later),
              ap (λ (l : List ℕ). byte ∷ l) e',
              (further, first),
              short,
            )
      ]
    ]

ReadsTo-read_head :
    (later : List ℕ) (limit : ℕ) (head : List ℕ) (byte : ℕ) (rest : List ℕ)
    → FirstEnd (head ++ byte ∷ []) later
    → length (head ++ byte ∷ later) ≤ limit
    → read_head limit head (byte ∷ later ++ rest) ≡ ok (head ++ byte ∷ later, rest)
unfolding read_head
ReadsTo-read_head [] limit head byte rest ended short =
    rw
      (
        read_head,
        not_long limit (length head) (omega (arith, short, length-append {0} head (byte ∷ []))),
        ended,
      )
      refl
ReadsTo-read_head (next ∷ later) limit head byte rest (further, first) short =
    let joined = append_assoc head (byte ∷ []) (next ∷ later) in
    rw
      (
        read_head,
        not_long limit (length head)
            (omega (arith, short, length-append {0} head (byte ∷ next ∷ later))),
        further,
      )
      (ReadsTo-read_head later limit (head ++ byte ∷ []) next rest first
          (omega (arith, short, ap (λ (l : List ℕ). length l) joined))
        ∙ ap (λ (l : List ℕ). ok (l, rest)) joined)

-- The response head is read exactly if the bytes have a first blank line within the limit: the
-- head ends there, and all that follows is left.
pub read_response_head-ReadsTo :
    (bytes whole rest : List ℕ)
    → (read_response_head bytes ≡ ok (whole, rest))
      ↔ ReadsTo max_response_head [] bytes (whole, rest)
unfolding read_response_head
read_response_head-ReadsTo bytes whole rest = (
  λ h. read_head-ReadsTo max_response_head [] bytes whole rest h,
  λ (byte, later, e, e', first, short).
      rw (e, e')
        (ReadsTo-read_head later max_response_head [] byte rest first
          (omega (arith, short, ap (λ (l : List ℕ). length l) e))),
)

-- What an opened tunnel starts with
abbrev pub OpensWith : List ℕ → List ℕ → Type 0
OpensWith bytes rest =
    (whole : List ℕ) × (status : ℕ) × ReadsTo max_response_head [] bytes (whole, rest)
    × (parse_status whole ≡ ok status)
    × (200 ≤ status)
    × (status ≤ 299)

accepted_status : (status : ℕ) → tunnel_status status ≡ ok tt → (200 ≤ status) × (status ≤ 299)
accepted_status status h = elim (Bool-cases (in_range 200 299 status)) [
  | inl good ↦ (ground (arith, good), ground (arith, good))
  | inr bad ↦ refused_status (status == 407) (rw (bad) at h)
]
  where
    refused_status :
        (b : Bool)
        → ◌≡◌ {A = Result TunnelError (Unit {0})}
            (if b then err requires_authentication else err (refused status))
            (ok tt)
        → (200 ≤ status) × (status ≤ 299)
    refused_status true e = cc
    refused_status false e = cc

-- A tunnel that is opened starts with the bytes behind the first blank line of an answer whose
-- status is from 200 to 299.
pub tunnel_from-OpensWith :
    (bytes rest : List ℕ) → tunnel_from bytes ≡ ok rest → OpensWith bytes rest
unfolding tunnel_from
tunnel_from-OpensWith bytes rest h =
    let (r, read, h') = >>=-eq-ok (read_response_head bytes) _ h in
    let (status, parsed, h'') = >>=-eq-ok (parse_status r.0) _ h' in
    let (accepted, good, h''') = >>=-eq-ok (tunnel_status status) _ h'' in
    let same : r.1 ≡ rest = cc h''' in
    let to_rest =
      subst (λ (x : List ℕ). ReadsTo max_response_head [] bytes (r.0, x)) same
        ((read_response_head-ReadsTo bytes r.0 r.1).0 read) in
    let (low, high) = accepted_status status good in (r.0, status, to_rest, parsed, low, high)
