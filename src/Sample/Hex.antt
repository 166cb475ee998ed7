-- ===== src/Sample/Hex.antt =====
-- Bytes as text: a byte is as many strokes, and a comma.
use Prim.Native.String.{String}
use Prim.Native.Char.{code}
use mm2_parity_ethereum.Base.{
  Bytes, ℕ, zero, suc, ◌+◌, ◌≡◌, refl, ap, Option, none, some, [], ◌∷◌, ◌∙◌, arith, ◌==◌,
  if◌then◌else◌,
}

abbrev pub strokes : ℕ → String → String
strokes zero text = String.◌∷◌ "," text
strokes (suc n) text = String.◌∷◌ "|" (strokes n text)

abbrev pub to_hex : Bytes → String
to_hex [] = ""
to_hex (b ∷ bs) = strokes b (to_hex bs)

abbrev pub prepend : ℕ → Option Bytes → Option Bytes
prepend n none = none
prepend n (some bs) = some (n ∷ bs)

abbrev pub from_hex_after : String → ℕ → Option Bytes
from_hex_after String.[] n = some []
from_hex_after (String.◌∷◌ c text) n =
    if code c == 44 then prepend n (from_hex_after text 0) else from_hex_after text (n + 1)

from_hex_after-strokes :
    (b n : ℕ) (text : String)
    → from_hex_after (strokes b text) n ≡ prepend (n + b) (from_hex_after text 0)
from_hex_after-strokes zero n text = ap (λ (k : ℕ). prepend k (from_hex_after text 0)) (omega arith)
from_hex_after-strokes (suc b) n text =
    from_hex_after-strokes b (n + 1) text
    ∙ ap (λ (k : ℕ). prepend k (from_hex_after text 0)) (omega arith)

pub from_hex-to_hex : (b : Bytes) → from_hex_after (to_hex b) 0 ≡ some b
from_hex-to_hex [] = refl
from_hex-to_hex (b ∷ bs) =
    from_hex_after-strokes b 0 (to_hex bs)
    ∙ rw (from_hex-to_hex bs) (ap (λ (k : ℕ). some (k ∷ bs)) (omega arith))
