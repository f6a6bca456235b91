-- ===== src/Lib.antt =====
-- ChronoSift: log parsing and triage. Text and binary logs are turned into events, which are
-- collected in a stream, sorted, selected by filter expressions, analysed and exported. This library
-- models the core that all parts stand on, the event model, the JSON and CEF parsers, the filter
-- language, the timeline, the statistics and the serializers.
--
-- The parts, and how they interact:
--   Common: shared names, Boolean tests, lists and byte strings, signed integers, bit operations.
--   Core: the helpers of include/core and src/core. Core.Chars, Core.Text and Core.Number are
--     src/core/string_util.cpp; Core.Status is status.cpp with types.hpp; Core.Span is
--     byte_span.hpp with endian.hpp; Core.Reader is byte_reader.cpp, on spans and statuses;
--     Core.Encoding is encoding.cpp; Core.Time (civil dates), Core.Timestamp, Core.Timestamp.Iso and
--     Core.Timestamp.Named (the timestamp and its text formats) are time_util.cpp; Core.Diagnostics
--     is diagnostics.cpp.
--   Event: include/event and src/event. Event.Severity is severity.cpp; Event.Fields is field.cpp,
--     the map of extra fields; Event.Record is event.cpp, the event with its summary and signature;
--     Event.Stream is stream.cpp, the events in order with the bounds of their times.
--   Query: src/query/filter.cpp. Query.Filter is the filter and its evaluation on an event, with the
--     severities, fields and number parsers of the parts above; Query.Parser parses expressions.
--   Analyze: Analyze.Timeline is src/analyze/timeline.cpp, the histogram of a stream with its gaps.
--     Analyze.Counter and Analyze.Statistics are statistics.cpp, the counters of keys and what they
--     count of a stream.
--   Json: src/jsonlog. Json.Value is json_value.cpp, the value type and its rendering; Json.Scan
--     (strings and numbers) and Json.Parser (values) are json_parser.cpp; Json.Mapper is
--     log_mapper.cpp, which parses each line of a text, maps it to an event and adds it to a stream.
--   Cef: src/cef. Cef.Record is cef_record.cpp; Cef.Header, Cef.Extensions and Cef.Events are
--     parser.cpp, from the parts of a line to the stream of its events.
--   Serialize: src/serialize/writer.cpp. Serialize.Writer writes events as lines of JSON, which the
--     parser of Json reads back; Serialize.Csv writes them as a table.
--
-- A module holds the definitions, with the names of the source; its child modules hold the proofs,
-- each named for what it proves, and its Examples module the tests. Core.Timestamp.Iso,
-- Core.Timestamp.Named, Analyze.Timeline.Render and Analyze.Statistics.Render hold definitions too.
--
-- How the code is modelled. A char or byte is its number, a string or span the list of its bytes. A
-- method that changes an object returns the new object with its result. An index that runs over a
-- string is the list of the bytes from it on. A bool with an out parameter is an Option, Result<T> a
-- sum of a value and a Status. An enumeration is a data type, and its cast to int a function. An
-- unsigned value of fixed width has its wrap-around written out where the code can exceed the width;
-- an i64 is in ℤ. Where a conversion, a zone or a difference of times can leave the range of i64,
-- which C++ leaves undefined, the result is taken to wrap around (wrap_i64, and sub_i64 of the
-- timeline); theorems whose truth needs that range say so.
--
-- Fuel. Loops whose argument is not a part of the last one run on fuel. words_from, replace_from,
-- utf8_from, utf16_from and parse_loop get at least the number of bytes or units, and each round
-- passes one; year_walk gets more than the number of days to walk. Where running out is visible
-- (utf8_from, year_walk and parse_loop give none), the theorems on the results exclude it; and
-- what replace_from gives is proved complete. grow gets one round more than the index of the
-- bucket that it grows to. The loops of the JSON parser and
-- that over CEF extensions get more than the number of bytes left, and
-- parse_value, whose fuel is the nesting, two more than max_depth: a call at depth max_depth + 1
-- still returns the error of the limit.
--
-- Not modelled. std::stable_sort, std::sort, find, compare and to_string are the language's
-- library, written out from their documented meaning; `%g` of printf is a parameter, format_g, and
-- Floats has what the JSON code uses of doubles: strtod, `%.17g`, conversions, `*` and `<=`. Memory,
-- moves and reserve are left out. The parsers of the other log formats (src/syslog,
-- src/weblog, src/winlog), the other analyses (src/analyze) and src/pipeline, and the tools, tests
-- and fuzz drivers are not part of this library.
mod Common
pub mod Analyze
pub mod Cef
pub mod Core
pub mod Event
pub mod Json
pub mod Query
pub mod Serialize
