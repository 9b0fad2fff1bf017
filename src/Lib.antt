-- ===== src/Lib.antt =====
-- MarketData_Ingress: a benchmark runner for inference engines, a Prometheus exporter of its
-- metrics, a comparator that gates on them, and a builder of a small TensorRT engine.
--
-- The runner (src/main.cpp) reads its options, chooses an engine, runs the benchmark and writes a
-- metrics document. The exporter (tools/metrics_exporter.cpp) reads that document at each scrape and
-- serves it over HTTP; the comparator (tools/metrics_compare.cpp) reads two such documents and
-- exits by a budget of regression. The builder (src/build_tiny_engine.cpp) writes a model that the runner's
-- TensorRT engine loads.
--
-- Files, and the code that each one models:
--   Base, with Tests, Lists, Results, Attempts, Doubles, Decimal, Words: shared types, tests, lists
--     over the native numbers, results with an error, methods that return early, and the interfaces
--     to `double` and `float`.
--   Json: the white space, scalars and escapes that both readers of JSON treat alike.
--   Cli: the loop over the arguments of the four programs.
--   Engine, Engine/Factory, Engine/Mock: include/marketdata_infer/engine.h, src/engine_factory.cpp,
--     src/engine_mock.cpp. An engine is a record of functions over a state.
--   Engine/Tensorrt: src/engine_tensorrt.cpp and include/marketdata_infer/tensorrt_engine.h. Calls has
--     what the class asks of CUDA and TensorRT, Session its members and `destroyResources`, Loading
--     and Inference its methods, Lifetime the states that they reach, and Progress the calls that all
--     answer. The state holds a log of the
--     calls made, by which resources are accounted for.
--   Builder/Options, Process, Program: src/build_tiny_engine.cpp, over the same calls of TensorRT, with
--     the file operations as a parameter.
--   Benchmark/Statistics, Validation, Run, Escape, Report, Summary: src/benchmark.cpp. `run_benchmark` is
--     explicit state passing over the engine's state, on a machine: its clock is a function of the
--     iteration, and for each vector and size it tells whether the memory can be had, since the code
--     throws where it cannot. `std::sort` is an insertion sort.
--   Runner/Options, Runner/Program: src/main.cpp. The outcome holds the exit status, the metrics file
--     and what is printed on standard output.
--   Compare/Reader, Metrics, Gate: tools/metrics_compare.cpp. A position in a document is a number.
--   Exporter/Scan, Values, Snapshots, Labels, Render, Scrape, Http, Server, Program:
--     tools/metrics_exporter.cpp. The state of the exporter is passed along; the accept loop runs
--     over a sequence of events, and waits where they are used up, so that `main` has no exit status
--     yet.
--   Interop: the writer of src/benchmark.cpp against the readers of its documents.
--   Tests: the theorems at concrete inputs, with thousandths in place of `double`.
--
-- Conventions. A string is the list of its bytes. An exception is the error of a result. `double` and
-- `float` are parameters, and so are `strtod`, `strtoul`, `stoull`, the file system, the sockets, the
-- clock, the memory of the benchmark's vectors, CUDA and TensorRT. Counters of 64 bits wrap where the
-- code lets them.
--
-- Fuel. The loop of `find_value` takes the length of the document and one more, since each round
-- moves the start of the search on by at least one character. `find` of the comparator takes as much:
-- each round reads at least the quote that opens a field. Both end with a value of their own,
-- `out_of_fuel`, where they have no fuel for another round, which the code has no counterpart of.
-- `send_all` takes the length of the response, since each call that does not fail takes at least one byte. `decimal` takes the number and one more,
-- since each round divides it by ten. The other loops are structural.
--
-- Not modelled: the help texts, the messages on standard error of src/main.cpp, the programs' self
-- tests, the signal handlers but for the events that they cause, tests/, scripts/ and deploy/.
pub mod Base
pub mod Builder
pub mod Cli
pub mod Json
pub mod Benchmark
pub mod Compare
pub mod Engine
pub mod Exporter
pub mod Interop
pub mod Runner
pub mod Tests
