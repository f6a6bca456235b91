-- ===== src/Query/Parser/Examples.antt =====
-- A filter of two predicates, and a text that is none.
use chrono_sift.Common.{◌≡◌, [], ◌∷◌, some, codes, refl, arith}
use chrono_sift.Core.Chars.{is_alpha, is_digit}
use chrono_sift.Core.Status.{Result, success}
use chrono_sift.Query.Filter.{Op, Conj, Predicate, Filter}
use chrono_sift.Query.Parser.{is_field_char, parse_filter}
use chrono_sift.Query.Parser.Total.{IsOutcome, IsWellFormed, parse_filter_lem}
use chrono_sift.Query.Parser.Written.{filter_text}
use chrono_sift.Query.Parser.RoundTrip.{parse_filter-filter_text}

abbrev on_app : Predicate
on_app = record { field = codes "app"; op = Op.ne; value = codes "a \"b\"" }

abbrev on_status : Predicate
on_status = record { field = codes "status"; op = Op.ge; value = codes "500" }

abbrev either : Filter
either = record { predicates = on_app ∷ on_status ∷ []; conjunctions = Conj.or ∷ [] }

either-IsWellFormed : IsWellFormed either
unfolding is_field_char is_alpha is_digit
either-IsWellFormed = record {
  joined = omega arith;
  all_predicates = (
    record {
      named = λ e. absurd (omega (arith, e));
      field_chars = (refl, (refl, (refl, tt)));
      short_field = omega arith;
      short_value = omega arith;
    },
    (
      record {
        named = λ e. absurd (omega (arith, e));
        field_chars = (refl, (refl, (refl, (refl, (refl, (refl, tt))))));
        short_field = omega arith;
        short_value = omega arith;
      },
      tt,
    ),
  );
  bounded = omega arith;
}

parse_filter_lem_example :
    (r : Result Filter) × (parse_filter (codes "host=web1 AND") ≡ some r) × IsOutcome r
parse_filter_lem_example = parse_filter_lem (codes "host=web1 AND")

parse_filter-filter_text_example : parse_filter (filter_text either) ≡ some (success either)
parse_filter-filter_text_example = parse_filter-filter_text either either-IsWellFormed
