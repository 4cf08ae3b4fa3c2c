-- ===== src/Lib.antt =====
-- slidko: a verification library for the Python package src/slidko, which turns logic captures of a
-- sick board into decoded events, anomalies, statements with evidence, and a next repair step.
--
-- The parts, in the order of the data. Paths are those of the repository.
--   Capture     src/slidko/capture/model.py: channels, sample rate, provenance; srfile.py
--               (Capture/SrFile, Capture/SrFile/Read: a session file as the list of its members) and
--               sigrokcli.py (Capture/SigrokCli: a timed capture).
--   Measure     src/slidko/measure/edges.py (Measure/Edges) and src/slidko/measure/smoke.py
--               (Measure/Smoke: one file for each check, `Run` composes them).
--               src/slidko/measure/intervals.py (Measure/Intervals: the period of a channel).
--               The discriminators: uart.py (Measure/Uart), dshot.py (Measure/Dshot), ws2812.py,
--               pwm.py, can.py and analog_video.py (Measure/Recognize), i2c.py (Measure/I2c: start
--               and stop conditions; Measure/I2c/Roles) and spi.py (Measure/Spi).
--               src/slidko/measure/classify.py: Measure/Single chooses for one channel,
--               Measure/Classify for all, over arbitrary discriminators, and Measure/Whole gives it
--               those above. `max` and `min` with a key are Measure/Best. Measure/Classify/Refines is
--               what a classification is without the loops.
--   Decode      src/slidko/decode/events.py, backend.py and native_uart.py: the events that the smoke
--               detector and the narrator read, and the decoder that makes them; from_measure.py, which
--               makes hypotheses from claims; sigrok_backend.py (Decode/Sigrok: its arguments and the
--               dispatch; Decode/Sigrok/Lines: the lines it prints; Decode/Sigrok/Files: its temporary
--               file); decoder_pin.py, the drift alarm, and its file (Decode/DecoderPin/Files).
--               Decode/Schema: the kinds of events. Decode/NativeUart/Auto joins the baud that
--               Measure/Uart infers with the decoder that reads at it; Decode/NativeUart/Guards
--               and Supported say what that decoder accepts.
--   Corpus      src/slidko/corpus/sidecar.py: what is known of a capture, to and from JSON;
--               capture_cli.py and paths.py (Corpus/CaptureCli) and sweep.py
--               (Corpus/CaptureCli/Sweep): labelled captures, as lists of writes;
--               field_gold_holdout.py (Corpus/Holdout): the scan of the sources.
--   Json        JSON values, for what the parts above and below write with Python's `json`.
--   Narrate     src/slidko/narrate: transaction summaries, coincidences, the receiver rule, and
--               `narrate`, which composes the three into one list (Narrate/Compose); model.py, an
--               assertion, to and from JSON (Narrate/Model).
--   Librarian   src/slidko/librarian/retrieve.py: the documents of a board.
--   Diagnose    src/slidko/diagnose: the fault tree, config pull, the validator of instructions, the
--               model boundary, and `diagnose`, which composes them.
--   Examples    concrete inputs.
--
-- Conventions. A function keeps the name it has in the source, without a leading underscore. A
-- function that may raise returns a `Result` (Result): the exceptions are the constructors of `Error`.
-- A sample index is a native natural number. A dictionary is an association list in insertion order
-- without repeated keys, read from the front. A `dict[str, Any]` has the values that the code reads
-- or writes.
-- A float is any type with the operations of `Float` (Prelude/Floats); what a theorem needs of them
-- is among its hypotheses. numpy's `diff` and `flatnonzero` are the record `Numpy`, with their
-- documented behaviour in `NumpyLaws`, which `plain_numpy` meets; numpy's and scipy's operations on
-- arrays of floats are the record `Statistics`. File contents and sha256 are arguments. The language
-- model of `diagnose` is an arbitrary function. `str.lower` and `str.strip` are ASCII.
--
-- Fuel. The loop of `decode` runs on the number of samples, since each turn advances; the chatter
-- loop on the number of intervals; a loop of `classify` on the number of channels, since each turn
-- takes some away; the chunk loop of `write_sr` on the number of bytes; `arange` on its
-- upper limit, its steps being positive.
--
-- JSON. `json.dumps` and `json.loads` are parameters; that a written value is read back is a
-- hypothesis at that value. In capture_cli.py `json.dumps` and the writes of files may raise. The source does not check the type of a decoded value against its annotation; here a
-- value of another type is a TypeError. Numbers in JSON are natural numbers and floats.
--
-- Not modelled: what processes and services do (sigrok-cli is an arbitrary function of its arguments and
-- of the files, the client of the language model one of its request); the zip container and the
-- configuration parser of a session file (its members are a list, the parser is a parameter); the
-- making of directories; the firmware. A sample rate is positive: a division by zero is not modelled.
pub mod Prelude
pub mod Result
pub mod Json
pub mod Numpy
pub mod Capture
pub mod Measure
pub mod Decode
pub mod Librarian
pub mod Narrate
pub mod Diagnose
pub mod Corpus
pub mod Examples
