-- ===== src/Lib.antt =====
-- A model of Bark Detector, a service that listens to audio sources, classifies each chunk of 0.975
-- seconds, saves a WAV snippet around each bark and tells MQTT and Home Assistant about it.
--
-- The program's parts and the files that model them:
--   * bark_detector/audio_format.py: AudioFormat. The constants.
--   * bark_detector/config.py: Config. The data classes with their defaults, the MQTT topics and
--     the thresholds of a label (`detection_threshold_for`, `notify_threshold_for`). A topic's
--     placeholder is an argument; a base topic with braces, which `str.format` would read, is left
--     out. Config/Source is `build_source_config` with its errors, on a request whose values have
--     the types that the fields want, and Config/Described says what it gives. Config/Env and Config/Settings are the rest of `load_config`,
--     and `dump_config`: the dictionaries of a file are records (`RawMqtt` and so on) in which a key
--     may be missing, and the environment is the record `Env`, with what `int` and `float` make of a
--     text. Config/Files is the directory of sources, a list of paths with the dictionaries in the
--     files, which YAML saves and reads as they are: `load_sources`, `save_source`,
--     `delete_source_file`. The search for a new path is on fuel, one more than there are files.
--     Config/AtomicWrite is `_atomic_write` call by call: which calls of the operating system
--     succeed is the record `Calls`, and the disk after each of them comes out.
--   * bark_detector/detector.py: Detector. `detect` is the loop of `AudioTfl.detect` over the raw
--     detections, which Detector/Raw makes of the scores of the model as `_detect_raw` does; numpy's
--     sorting is the record `Sorter`, with the documented laws of argpartition and argsort, and
--     Detector/Sorting is an instance. Detector/Labels is `load_labels`, Detector/Pcm
--     `pcm_chunk_to_waveform` on the record `Numpy` of what it calls of numpy. Worker/Classifier is about the worker's loop on `_detect_raw`.
--   * bark_detector/snippet.py: Snippet. `SnippetRecorder` is a record with the ring buffer, a list
--     that `append_bounded` keeps at its length, and the active capture. `trigger`, `notify`,
--     `add_chunk` and `finalize` (`_finalize`) take the recorder and return the new one with what
--     the method returns. `add_chunk` is told whether the file can be written, and returns an
--     `Outcome`, which is `raised` if it cannot. Snippet/History lists calls on one recorder in any
--     order.
--   * bark_detector/worker.py: Worker. `classify` and `process_chunk` are the two parts and the
--     whole of `_process_chunk`, `round` is one turn of `run` with a chunk. An `Input` holds what
--     the outside gives in that turn. What the worker asks of the publisher and of the store comes
--     out as a list of `Attempt`s, since the worker logs and forgets their failures. Worker/Trace
--     is a run of any number of rounds.
--   * bark_detector/event_store.py: EventStore. The table is a list of rows with the sequence of its
--     key. SQLite is outside: the order in which it returns rows is the record `OrderBy`, with the
--     documented law of ORDER BY.
--   * bark_detector/cleanup.py: Cleanup. `cleanup_by_age`, `cleanup_by_space` and `run_cleanup` act
--     on the store and a disk, a map from paths to sizes in which some files cannot be removed;
--     `compute_stats` is given the sizes of the files and the free space.
--   * bark_detector/mqtt_publisher.py: Mqtt/Publisher. Each method returns the new publisher, if it
--     changes it, and the calls on the paho client and on the status callback in their order. A
--     publisher without a callback makes the same calls less those on the callback. The broker is
--     outside: it is the record `Broker` of Mqtt, with the documented law of retained messages.
--   * bark_detector/ha_discovery.py: Mqtt/Discovery. The discovery topics and payloads.
--   * bark_detector/controller.py: Controller. `add_source`, `update_source` and `delete_source` act
--     on the sources and on the workers, a dictionary from names to the settings that a worker runs
--     with; whether `save_source` can write is an argument, and `can_start` says whether the
--     constructor of a worker raises, which it does where its recorder's does; the model is taken to
--     load. A worker that is
--     stopped is told so and waited for, 10 seconds at most; whether its thread has ended then is
--     only logged. `poll` is a round of `_status_loop` over
--     the workers. The calls on files, threads, the publisher and the hub come out in their order.
--     Controller/MqttSettings is `update_mqtt` with the publisher that it reconfigures,
--     Controller/TestSource is `test_source`, Controller/Stopping is `stop` with the publisher and
--     `_on_mqtt_status_change`. Controller/OnDisk does the calls on files of each request as
--     Config/Files does them.
--   * bark_detector/ws_hub.py: WsHub. The set of registered queues with what was put into each.
--   * bark_detector/audio_source.py, with `run` of worker.py: AudioSource. The command of ffmpeg, and
--     the thread of a worker as a machine whose `Place` says where in `run`, `read_chunk` and
--     `_restart` it stands. An `Action` is a step of the thread or a call of the controller, so that
--     a list of actions is any interleaving of the two. The processes are numbers.
--   * bark_detector/probe.py: Probe. `report` is what is made of what running ffmpeg gives.
--   * bark_detector/web.py: Web. `get_snippet`, `list_events` and `list_sources` are the routes of
--     these names, `dispatch` is `_dispatch` on a message that JSON has read, with the whole of what
--     the controller does for it. Web/Connection is `_serve_ws_client` with the hub: a `Turn` says
--     what is received, what other threads broadcast meanwhile, and which send raises.
--   * bark_detector/main.py, with `start` of controller.py: Program. `main` gives the exit code, or
--     the exception, and the calls that it makes, with any requests on the sources between the
--     start and the stop. The record `Outside` says whether SQLite, paho and the web server take the
--     settings.
--   * test-rig/stream/download_audioset.py: TestRig. TestRig/Run is `download_segment`,
--     `fetch_dataset` and `main` on a directory that is a table from names to clips, TestRig/Index
--     is `load_segments_index`. pandas' sample is the record `Sampler` with its documented law, and
--     yt-dlp is a function that says what a download leaves at a path and whether it raises.
--
-- The controller starts and stops the workers as sources come and go, and tells the hub and the
-- publisher of each status. A worker reads chunks from its audio source, feeds the recorder, and
-- hands its notices to the publisher and its events to the store and the publisher; the cleanup
-- passes delete rows and files of the store, and their alert goes to the publisher; the publisher
-- takes the discovery messages from ha_discovery.py. The web server turns the messages of the
-- settings page into calls of the controller, which saves what changes through config.py and tries
-- sources through probe.py.
--
-- Python's floats are a type `F` with the operations that the code uses, the record `Float`, whose
-- laws hold of IEEE 754 arithmetic, NaN included; Float/Milli is an instance in thousandths that
-- the examples compute with. Integers are unbounded, as Python's are. The loops of the code are
-- structural recursion but for two on fuel: the search for the path of a new source's file, and the
-- printing of a number in Prelude/Texts, whose fuel is one more than the number while each step
-- divides by ten.
--
-- Not modelled: locks (every method is one step; only AudioSource and Web/Connection interleave
-- threads), log messages but for the rate limit of the near misses, the TFLite model, numpy,
-- pandas, yt-dlp, paho, SQLite, ffmpeg and the files themselves; the text of YAML files;
-- the waiting of the controller's background loops in controller.py; Flask and the pages in web.py;
-- signals in main.py; SQLite's bound on the number of rows that one statement deletes; an
-- exception of paho's `connect_async` but at the start; the parsers of command lines. The pages, the firmware in esphome and the
-- shell scripts of the rig are not Python.
mod Prelude
pub mod Float
pub mod AudioFormat
pub mod Config
pub mod AudioSource
pub mod Probe
pub mod Detector
pub mod Snippet
pub mod TestRig
pub mod Worker
pub mod EventStore
pub mod Cleanup
pub mod Mqtt
pub mod WsHub
pub mod Controller
pub mod Web
pub mod Program
