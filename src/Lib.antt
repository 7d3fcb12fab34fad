-- ===== src/Lib.antt =====
-- Analysis of the logs of an SSH honeypot.
--
-- The honeypot writes JSON-lines logs (auth.log, session.log, server.log); the Python scripts under
-- analysis/ read them. The scripts share the loader and the tests for injected echo chunks, and
-- some form a chain: fingerprint.py makes command shapes and unique_patterns.json, cluster.py puts
-- the patterns under rules, classify.py takes the shapes of the one, the rules of the other and a
-- mapping to assign families to source addresses.
--
-- Base has texts as lists of code points (Text), Python's dictionaries as association lists in
-- the order of insertion (Dict), distinct elements (Distinct) and the stable sort (Sort). Regex is a
-- backtracking matcher of `re` in which each pattern of the scripts is written as a tree.
-- Log has the records and the loaders, Patterns the expressions that several scripts use.
-- Seqgroup is analysis/seqgroup.py: `Session` and its methods, Ingest `ingest`, Groups `cluster`,
-- Output `write_output`, Main the options and the outcome.
-- Cluster is analysis/cluster.py: RULES; Report the tables of `main`; TieBreaks TIE_BREAKS.
-- Fingerprint is analysis/fingerprint.py: Shape `_shape_and_raw`, Groups the grouping in `main`.
-- Classify is analysis/classify.py: the mapping and `_classify`, Aggregate the loops of `main`, Output its
-- file, which gen_stix_bundle.py reads.
-- Replay is analysis/replay.py: the tests that fingerprint.py imports, Events the collection of `main`,
-- Screen `render_session` and Output its text, Options and Main the rest of `main`.
-- Extract is `parse_hex` of analysis/extract_binary.py and analysis/extract_all_binaries.py, One and
-- All their loops, Save the files they write. Passwords is analysis/passwords.py, Timeline analysis/timeline.py.
-- Periods is analysis/periods.py: the periods and their events, Metrics `compute_stats`, Output the
-- rendering.
-- Stats is analysis/stats.py: the counting loops, Sprays the sliding window over a credential,
-- Output the report.
-- Sessions is analysis/sessions.py: events by session, and the head of a session. Its Output is the Markdown.
-- Cluster.Output, Fingerprint.Summary, Passwords.Output and Timeline.Output are the printed texts of those scripts.
-- GenStats is analysis/gen_stats.py: the counting loops, Families `count_families`, Output the file.
-- Report is analysis/report.py: phases, labels, sentences, chains; Header, Sources, Alerts and Listing the
-- renderers and `main`. QuickReport is analysis/quick-report.py.
-- Stix is analysis/gen_stix_bundle.py: the tables, Ids the identifiers, Objects the objects, Attackers,
-- Payloads, Servers and Notes the sections of `build_bundle`, as lists of the steps `objects.append(o)` and
-- `counts[key] += n` in their order, Bundle the whole, which carries them out. A missing key is the
-- `key_error` of Base.Results. The constructors of stix2 are taken to accept their arguments.
-- The other modules under each of these have the proofs, Tests runs and instances.
--
-- The loops are structural recursions. Some have an index that jumps and run on fuel: `walk` of
-- Fingerprint.Shape on the number of events and `decode` of Extract on the length of the text,
-- which is enough since each round takes an event or a character at least; so does `walk` of
-- Replay.Screen on the number of entries.
--
-- Arguments of the definitions: the Unicode predicates (`Unicode`), `json.loads`, `json.dumps`,
-- the hashes of hashlib, `int(_, 16)`, the parsers of timestamps, and (`Library`)
-- `uuid.uuid5`, the text of a UUID and the ids that stix2 gives to files, and (`Host`) `%.1f`
-- and (`Clock`)
-- the datetime functions and decimals of the scripts that print them, `repr`, and the first of a set. Not modelled: how the
-- two extractors lay out their lines, the summaries that gen_stats.py and classify.py print, the command lines but for
-- replay.py's, and the honeypot
-- itself, which is written in Go.
pub mod Base
pub mod Regex
pub mod Log
pub mod Patterns
pub mod Seqgroup
pub mod Cluster
pub mod QuickReport
pub mod Replay
pub mod Fingerprint
pub mod Classify
pub mod Extract
pub mod Passwords
pub mod Periods
pub mod Stats
pub mod GenStats
pub mod Report
pub mod Timeline
pub mod Sessions
pub mod Stix
mod Tests
