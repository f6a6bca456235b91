-- ===== src/Serialize/Csv/Examples.antt =====
-- The table at a sample stream.
use chrono_sift.Common.{◌≡◌, ◌∷◌, [], codes, map, length, refl, some}
use chrono_sift.Event.Record.{LogEvent, blank}
use chrono_sift.Event.Stream.{EventStream, empty_stream}
use chrono_sift.Serialize.Csv.{
  csv_quote, needs_quote, double_quotes, csv_columns, row_cells, to_csv,
}
use chrono_sift.Serialize.Csv.Reader.{read_csv, read_csv-to_csv}

csv_quote_sample : csv_quote (codes "say \"hi\"") ≡ codes "\"say \"\"hi\"\"\""
unfolding csv_quote needs_quote double_quotes
csv_quote_sample = refl

abbrev sample_stream : EventStream
sample_stream = record empty_stream {
  events = record blank { host = codes "a,b"; message = codes "x\r" } ∷ [];
}

read_csv-to_csv_example :
    (read_csv (to_csv sample_stream) ≡ some (csv_columns ∷ map row_cells sample_stream.events))
    × ((e : LogEvent) → length (row_cells e) ≡ length csv_columns)
read_csv-to_csv_example = read_csv-to_csv sample_stream
