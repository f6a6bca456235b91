-- ===== src/Json/RoundTrip/Steps.antt =====
-- The steps of `parse_value` over a text that `render_compact` wrote.
use chrono_sift.Common.{ℕ, suc, ◌+◌, ◌≤◌, ◌≡◌, refl, false, ◌∷◌, ◌++◌, some, arith, Bytes, ltb}
use chrono_sift.Core.Status.{success}
use chrono_sift.Json.Value.{JsonValue, Floats, render, depth}
use chrono_sift.Json.Limits.{IsWithin, nodes}
use chrono_sift.Json.Scan.{JsonLimits, is_ws}
use chrono_sift.Json.Parser.{Child, parsed, value_at, parse_value, parse_array, parse_object}
use chrono_sift.Json.RoundTrip.Numbers.{Stopped}
use chrono_sift.Json.RoundTrip.Texts.{IsPlain, skip_ws-first}

module _ (l : JsonLimits) (fl : Floats) where
  -- The limits and the fuel leave room for a tree of `dep` levels and `n` values.
  pub record HasRoom (fuel d total dep n : ℕ) : Type 0 where
    pub deep : dep + d ≤ suc l.max_depth
    pub fueled : dep ≤ fuel
    pub counted : total + n ≤ l.max_total_values

  pub parse_value-at :
      (fuel d total c : ℕ) (t : Bytes)
      → d ≤ l.max_depth
      → suc total ≤ l.max_total_values
      → is_ws c ≡ false
      → parse_value l fl (suc fuel) d total (c ∷ t)
        ≡ value_at l fl (parse_value l fl fuel (suc d)) (suc total) c t
  unfolding parse_value
  parse_value-at fuel d total c t hd ht w =
      let a : ltb l.max_depth d ≡ false = ground arith in
      let b : ltb l.max_total_values (suc total) ≡ false = ground arith in
      rw (a, parse_value) (rw (b, parse_value) (rw (skip_ws-first c t w, parse_value)))

  pub value_at-array :
      (child : Child) (total : ℕ) (t : Bytes)
      → value_at l fl child total b'[' t ≡ parse_array l child total t
  unfolding value_at
  value_at-array child total t = refl

  pub value_at-object :
      (child : Child) (total : ℕ) (t : Bytes)
      → value_at l fl child total b'{' t ≡ parse_object l child total t
  unfolding value_at
  value_at-object child total t = refl

  -- `parse_value` reads `v` back.
  abbrev pub ReadsBack : JsonValue → Type 0
  ReadsBack v =
      (fuel d total : ℕ) (rest : Bytes)
      → IsWithin l v
      → IsPlain v
      → HasRoom fuel d total (depth v) (nodes v)
      → Stopped rest
      → parse_value l fl fuel d total (render fl v ++ rest)
        ≡ some (success (parsed v (total + nodes v) rest))
