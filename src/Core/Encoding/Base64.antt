-- ===== src/Core/Encoding/Base64.antt =====
-- `base64_decode` against the standard encoding.
use chrono_sift.Common.{
  append_assoc, append-nil, sym, IsByte, All, ℕ, ◌+◌, ◌*◌, ◌/◌, ◌%◌, ◌^◌, false, [], ◌∷◌, ◌++◌, ◌≡◌,
  refl, ap, ◌∙◌, arith, ◌==◌, Bytes, Option, some,
}
use chrono_sift.Core.Chars.{is_space}
use chrono_sift.Core.Encoding.{success, base64_decode, Sextets, base64_loop}
use chrono_sift.Core.Encoding.Groups.{
  one_group, push24, sextet_4, base64_loop-letter, first_byte, push6, two_letters, start, letter,
  encode_three,
}

-- The encoding: three bytes to four letters, the last group padded with `=`.
unfoldable pub base64_encode : Bytes → Bytes
base64_encode [] = []
base64_encode (a ∷ []) = letter (a / 4) ∷ letter (a % 4 * 16) ∷ b'=' ∷ b'=' ∷ []
base64_encode (a ∷ b ∷ []) =
    letter (a / 4) ∷ letter (a % 4 * 16 + b / 16) ∷ letter (b % 16 * 4) ∷ b'=' ∷ []
base64_encode (a ∷ b ∷ c ∷ bytes) = encode_three a b c (base64_encode bytes)

-- The loop has decoded `bytes` behind `out`, and no sextet is left over.
record Decoded (out bytes : Bytes) (r : Option Sextets) : Type 0 where
  final : Sextets
  returns : r ≡ some final
  out_is : final.out ≡ out ++ bytes
  whole : (final.seen % 4 == 1) ≡ false

base64_loop-padding : (s : Sextets) (text : Bytes) → base64_loop s (b'=' ∷ text) ≡ some s
unfolding base64_loop is_space
base64_loop-padding s text = refl

base64_loop-Decoded :
    (bytes : Bytes) (acc seen : ℕ) (out : Bytes)
    → All IsByte bytes
    → seen % 4 ≡ 0
    → Decoded out bytes (base64_loop (start acc seen out) (base64_encode bytes))
unfolding base64_encode
base64_loop-Decoded [] acc seen out h e = record {
  final = start acc seen out;
  returns = unfold base64_loop in refl;
  out_is = sym (append-nil out);
  whole = ground arith;
}
base64_loop-Decoded (a ∷ []) acc seen out h e = record {
  final = _;
  returns =
      two_letters acc seen out (b'=' ∷ b'=' ∷ []) (a / 4) (a % 4 * 16) (omega (arith, h.0))
        (omega arith)
      ∙ base64_loop-padding _ (b'=' ∷ []);
  out_is = ap (λ (x : ℕ). out ++ x ∷ []) (omega (arith, h.0));
  whole = ground arith;
}
base64_loop-Decoded (a ∷ b ∷ []) acc seen out h e =
    let v1 = a / 4 in
    let v2 = a % 4 * 16 + b / 16 in
    let v3 = b % 16 * 4 in
    let acc2 = push6 (push6 acc v1) v2 in
    let final : Sextets = record {
      acc = push6 acc2 v3;
      bits = 2;
      seen = seen + 1 + 1 + 1;
      out = (out ++ a ∷ []) ++ (push6 acc2 v3 / 2 ^ 2 % 256) ∷ [];
    } in
    let byte : push6 acc2 v3 / 2 ^ 2 % 256 ≡ b = omega (arith, h.1.0) in
    record {
      final = final;
      returns =
          two_letters acc seen out (letter v3 ∷ b'=' ∷ []) v1 v2 (omega (arith, h.0))
            (omega (arith, h.1.0))
          ∙ ap
              (λ (x : ℕ).
                base64_loop
                  (record { acc = acc2; bits = 4; seen = seen + 1 + 1; out = out ++ x ∷ [] })
                  (letter v3 ∷ b'=' ∷ []))
              (first_byte acc a b h.0 h.1.0)
          ∙ base64_loop-letter _ v3 (b'=' ∷ []) (omega arith)
          ∙ ap (λ s. base64_loop s (b'=' ∷ []))
              (sextet_4 acc2 (seen + 1 + 1) (out ++ a ∷ []) v3 (omega arith))
          ∙ base64_loop-padding final [];
      out_is = ap (λ (x : ℕ). (out ++ a ∷ []) ++ x ∷ []) byte ∙ append_assoc out (a ∷ []) (b ∷ []);
      whole = ground arith;
    }
base64_loop-Decoded (a ∷ b ∷ c ∷ bytes) acc seen out h e =
    let acc' = push24 acc (a / 4) (a % 4 * 16 + b / 16) (b % 16 * 4 + c / 64) (c % 64) in
    let rest =
      base64_loop-Decoded bytes acc' (seen + 1 + 1 + 1 + 1) (((out ++ a ∷ []) ++ b ∷ []) ++ c ∷ [])
        h.1.1.1 (omega (arith, e)) in
    record {
      final = rest.final;
      returns = one_group acc seen out (base64_encode bytes) a b c h.0 h.1.0 h.1.1.0 ∙ rest.returns;
      out_is = rest.out_is ∙ simp append_assoc;
      whole = rest.whole;
    }

-- Decoding a standard encoding, padded to whole groups, gives the bytes back.
pub base64_decode-base64_encode :
    (bytes : Bytes) → All IsByte bytes → base64_decode (base64_encode bytes) ≡ success bytes
unfolding base64_decode
base64_decode-base64_encode bytes h =
    let d = base64_loop-Decoded bytes 0 0 [] h refl in
    rw (d.returns, base64_decode) (rw d.whole (ap success d.out_is))
