-- ===== src/Json/Samples.antt =====
-- Stand-ins for the parameters, for the tests of src/jsonlog.
use chrono_sift.Common.{false, some, codes}
use chrono_sift.Common.Int.{pos}
use chrono_sift.Json.Value.{Floats}

-- Floating-point operations that know the number 1 only.
abbrev pub sample_floats : Floats
sample_floats = record {
  strtod = λ s. some 0x3ff0000000000000;
  format_17g = λ d. codes "1";
  of_i64 = λ i. 0x3ff0000000000000;
  trunc_i64 = λ d. pos 1;
  mul = λ a b. b;
  le = λ a b. false;
}
