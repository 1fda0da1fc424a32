-- ===== src/Upstream/Endpoint/Percent/Laws.antt =====
-- Percent-encoded credentials are decoded to the bytes that they stand for.
use saiai_client.Prelude.{
  ℕ, zero, suc, ◌+◌, ◌*◌, ◌<◌, ◌≡◌, ◌≢◌, refl, ap, true, false, Bool-cases, inl, inr, some, List,
  [], ◌∷◌, ◌++◌, length, All, ◌==◌, ==_iff, arith,
}
use saiai_client.Upstream.Endpoint.Percent.{
  digit_value, from_hex, decode_bytes, percent_decode, is_utf8,
}

-- A byte as it is, or two digits with what they count
pub data Piece : Type 0 where
  plain : ℕ → Piece
  escape : ℕ → ℕ → ℕ → ℕ → Piece

abbrev pub IsPiece : Piece → Type 0
IsPiece (plain byte) = byte ≢ b'%'
IsPiece (escape hi lo h l) = (digit_value hi ≡ some h) × (digit_value lo ≡ some l)

abbrev pub piece_text : Piece → List ℕ
piece_text (plain byte) = byte ∷ []
piece_text (escape hi lo h l) = b'%' ∷ hi ∷ lo ∷ []

abbrev pub piece_value : Piece → ℕ
piece_value (plain byte) = byte
piece_value (escape hi lo h l) = h * 16 + l

abbrev pub pieces_text : List Piece → List ℕ
pieces_text [] = []
pieces_text (piece ∷ pieces) = piece_text piece ++ pieces_text pieces

abbrev pub pieces_value : List Piece → List ℕ
pieces_value [] = []
pieces_value (piece ∷ pieces) = piece_value piece ∷ pieces_value pieces

no_plus : (hi h : ℕ) → digit_value hi ≡ some h → (hi == b'+') ≡ false
no_plus hi h e = elim (Bool-cases (hi == b'+')) [
  | inl plus ↦
      let same : hi ≡ b'+' = (==_iff hi b'+').0 plus in
      absurd (cc (ap (λ (c : ℕ). digit_value c) same, e))
  | inr other ↦ other
]

from_hex_digits :
    (hi lo h l : ℕ)
    → digit_value hi ≡ some h
    → digit_value lo ≡ some l
    → from_hex hi lo ≡ some (h * 16 + l)
from_hex_digits hi lo h l e e' = rw (no_plus hi h e, e, e') refl

not_percent : (byte : ℕ) → byte ≢ b'%' → (byte == b'%') ≡ false
not_percent byte h = ground arith

decode_bytes-pieces :
    (pieces : List Piece) (fuel : ℕ)
    → All IsPiece pieces
    → length (pieces_text pieces) < fuel
    → decode_bytes fuel (pieces_text pieces) ≡ some (pieces_value pieces)
unfolding decode_bytes
decode_bytes-pieces pieces zero h l = absurd (omega arith)
decode_bytes-pieces [] (suc fuel) h l = refl
decode_bytes-pieces (plain byte ∷ pieces) (suc fuel) (piece, h) l =
    rw (decode_bytes, not_percent byte piece, decode_bytes-pieces pieces fuel h (omega (arith, l)))
      refl
decode_bytes-pieces (escape hi lo d e ∷ pieces) (suc fuel) ((eh, el), h) l =
    rw
      (
        decode_bytes,
        from_hex_digits hi lo d e eh el,
        decode_bytes-pieces pieces fuel h (omega (arith, l)),
      )
      refl

-- Credentials in which some bytes are written as a percent sign and two hexadecimal digits are
-- decoded to the bytes that were written, when these are UTF-8.
pub percent_decode-pieces :
    (pieces : List Piece)
    → All IsPiece pieces
    → is_utf8 (pieces_value pieces) ≡ true
    → percent_decode (pieces_text pieces) ≡ some (pieces_value pieces)
unfolding percent_decode
percent_decode-pieces pieces h utf8 =
    rw
      (
        percent_decode,
        decode_bytes-pieces pieces (suc (length (pieces_text pieces))) h (omega arith),
        utf8,
      )
      refl
