-- ===== src/Cef/Events/RoundTrip.antt =====
-- `parse_line` reads back a record that is written out as a line.
use chrono_sift.Common.{
  ℕ, ◌^◌, ◌≤◌, ◌<◌, ◌≡◌, refl, ap, sym, true, List, [], ◌∷◌, some, arith, length, Bytes, All,
}
use chrono_sift.Core.Status.{success, clamp_value}
use chrono_sift.Core.Number.{parse_u64, to_string}
use chrono_sift.Core.Number.Decimal.{parse_u64-to_string}
use chrono_sift.Cef.Record.{CefRecord, ParseOptions}
use chrono_sift.Cef.Header.RoundTrip.{header_text, split_header-text}
use chrono_sift.Cef.Extensions.RoundTrip.{pairs_text, IsNamed, parse_extensions-pairs_text}
use chrono_sift.Cef.Events.{record_of, parse_line, number_or_zero}

-- The fields behind the version.
abbrev pub header_fields : CefRecord → List Bytes
header_fields r =
    r.device_vendor ∷ r.device_product ∷ r.device_version ∷ r.signature_id ∷ r.name ∷ r.severity
    ∷ []

-- A record as a line.
abbrev pub cef_text : CefRecord → Bytes
cef_text r = header_text r.version (header_fields r) (pairs_text r.extensions)

-- A record that a line can hold under the limits.
pub record IsWritable (opts : ParseOptions) (r : CefRecord) : Type 0 where
  pub is_valid : r.valid ≡ true
  pub version_fits : r.version < 2 ^ 32
  pub fields_fit : All (λ v. length v ≤ opts.max_field_bytes) (header_fields r)
  pub extensions_fit : length (pairs_text r.extensions) ≤ opts.max_field_bytes
  pub extensions_few : length r.extensions ≤ opts.max_extensions
  pub extensions_named : All (IsNamed opts.max_field_bytes) r.extensions

version_read : (n : ℕ) → n < 2 ^ 32 → number_or_zero (parse_u64 (to_string n)) ≡ n
unfolding clamp_value
version_read n h = rw (parse_u64-to_string n (omega arith)) (ground arith)

-- A record with a 32-bit version, with header fields and extensions within the limits, and with named
-- extensions of key characters, is read back by `parse_line` from its line, in which `|`, `=` and `\`
-- are escaped where they would mean something else.
pub parse_line-cef_text :
    (opts : ParseOptions) (r : CefRecord)
    → IsWritable opts r
    → parse_line opts (cef_text r) ≡ some (success r)
unfolding parse_line record_of
parse_line-cef_text opts r w =
    let header =
      split_header-text opts r.version (header_fields r) (pairs_text r.extensions) w.version_fits
        refl w.fields_fit w.extensions_fit in
    let pairs = parse_extensions-pairs_text opts r.extensions w.extensions_few w.extensions_named in
    rw (header, parse_line)
      (rw (pairs, record_of)
        (rw (version_read r.version w.version_fits)
          (ap (λ b. some (success (record r { valid = b }))) (sym w.is_valid))))
