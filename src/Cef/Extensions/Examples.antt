-- ===== src/Cef/Extensions/Examples.antt =====
-- The extension parser at a sample text.
use chrono_sift.Common.{◌≡◌, codes, some, Bytes}
use chrono_sift.Cef.Record.{default_options}
use chrono_sift.Cef.Extensions.{Pairs, parse_extensions}
use chrono_sift.Cef.Extensions.Bounds.{PairsWithin, parse_extensions_lem}

abbrev noisy : Bytes
noisy = codes " src=10.0.0.1 ?? word msg=a b\\=c dpt=80"

parse_extensions_lem_example :
    (p : Pairs) × (parse_extensions default_options noisy ≡ some p) × PairsWithin default_options p
parse_extensions_lem_example = parse_extensions_lem default_options noisy
