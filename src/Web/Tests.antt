-- ===== src/Web/Tests.antt =====
-- Requests that web.py answers, and its theorems at them.
use bark_detector.WsHub.{init as hub, register, unregister, broadcast, discard}
use bark_detector.Web.Connection.{
  Turn, times_out, gets, hello, reply, push, serve_ws_client, greeted, turns, turn, turn_of,
  after_receive, drain_outbound, drained, drain, finish, broadcast_all,
}
use bark_detector.Web.Pushes.{pushes, all_broadcast, serve_ws_client-pushes}
use bark_detector.Prelude.{
  ℕ, ◌≤◌, ◌≡◌, refl, ◌↔◌, String, Bool, List, ◌++◌, true, false, none, some, [], ◌∷◌, map, length,
  str_eq, join_path,
}
use bark_detector.Prelude.Int.{pos}
use bark_detector.Float.Milli.{milli}
use bark_detector.Config.{default_mqtt}
use bark_detector.Config.Source.{source_not_found, has_slash}
use bark_detector.EventStore.{empty_store, has_id}
use bark_detector.EventStore.Sorting.{by_insertion}
use bark_detector.Probe.{launched}
use bark_detector.Mqtt.Publisher.{init}
use bark_detector.Controller.{no_defaults, delete_source, delete_found, find_source}
use bark_detector.Web.{
  App, action_of, Outside, Request, config_error, is_set, handle, delete_named, of_sources,
  dispatch, reply, object, bad_request, not_found, send_file, basename, get_snippet, list_events,
}
use bark_detector.Web.Snippets.{get_snippet_exact, list_events-le}
use bark_detector.Web.Refusals.{dispatch_refused}
use bark_detector.Web.Secrets.{with_password, dispatch_hides}

abbrev one_file : String → Bool
one_file path = str_eq path "/media/yard.wav"

snippet_test :
    map (get_snippet one_file "/media") ("yard.wav" ∷ "../yard.wav" ∷ "" ∷ ".." ∷ "a/" ∷ [])
    ≡ send_file "/media/yard.wav" ∷ bad_request ∷ bad_request ∷ not_found ∷ bad_request ∷ []
unfolding get_snippet basename join_path has_slash
snippet_test = refl

get_snippet_exact_example :
    (get_snippet one_file "/media" "yard.wav" ≡ send_file "/media/yard.wav") ↔ (
      ("/media/yard.wav" ≡ join_path "/media" "yard.wav")
      × (has_slash "yard.wav" ≡ false)
      × (str_eq "yard.wav" "" ≡ false)
      × (one_file "/media/yard.wav" ≡ true))
get_snippet_exact_example = get_snippet_exact one_file "/media" "yard.wav" "/media/yard.wav"

list_events-le_example :
    (length (list_events by_insertion (empty_store {F = ℕ}) none none) ≤ 50)
    × (length (list_events by_insertion empty_store (some (pos 7)) none) ≤ 200)
    × (length (list_events by_insertion empty_store (some (pos 8)) none) ≤ 8)
list_events-le_example = list_events-le by_insertion empty_store 7 none

abbrev app : App ℕ
app = record {
  controller = record { sources = []; workers = []; source_status = [] };
  settings = record {
    mqtt = record default_mqtt { password = some "hunter2" };
    publisher = init default_mqtt;
  };
}

abbrev outside : Outside ℕ
outside = record {
  env = record { var = λ key. none; int_of = λ text. none; float_of = λ text. none };
  windows = false;
  ffmpeg_path = "ffmpeg";
  launch = λ command. launched none "";
  fresh_id = "f0f0f0f0f0f0";
  saved = true;
  stops = true;
}

abbrev deletion : Request ℕ ℕ
deletion = record {
  type = some "sources.delete";
  id = 4;
  name = some "yard";
  source = no_defaults;
  mqtt = record {
    enabled = none;
    host = none;
    port = none;
    username = none;
    password = none;
    topic = none;
    client_id = none;
    discovery = none;
    discovery_prefix = none;
  };
}

deletion_test :
    (dispatch app outside (object deletion)).1
    ≡ reply (some "sources.delete") 4 (config_error source_not_found)
unfolding dispatch handle delete_named of_sources delete_source delete_found find_source action_of
deletion_test = refl

dispatch_refused_example :
    ((dispatch app outside (object deletion)).0 ≡ app)
    × ((dispatch app outside (object deletion)).2 ≡ [])
dispatch_refused_example =
    dispatch_refused app outside (object deletion) (some "sources.delete") 4 source_not_found
      deletion_test

abbrev question : Request ℕ ℕ
question = record deletion { type = some "mqtt.get" }

both_set : is_set app.settings.mqtt.password ≡ is_set (some "letmein")
unfolding is_set
both_set = refl

dispatch_hides_example :
    (dispatch app outside (object question)).1
    ≡ (dispatch (with_password app (some "letmein")) outside (object question)).1
dispatch_hides_example = dispatch_hides app outside (some "letmein") (object question) both_set

-- A tab that receives two messages, answers one, and then goes away.
abbrev tab : List (Turn ℕ)
tab =
    record { meanwhile = 1 ∷ 2 ∷ []; received = times_out; send_raises = none }
    ∷ record { meanwhile = 3 ∷ []; received = gets (7 ∷ []) false; send_raises = none }
    ∷ record { meanwhile = 4 ∷ 5 ∷ []; received = times_out; send_raises = some 1 }
    ∷ record { meanwhile = 6 ∷ []; received = times_out; send_raises = none }
    ∷ []

served :
    (serve_ws_client hub false tab).sent ≡ hello ∷ push 1 ∷ push 2 ∷ reply 7 ∷ push 3 ∷ push 4 ∷ []
unfolding serve_ws_client greeted turns turn turn_of after_receive drain_outbound drained drain
    finish broadcast_all register unregister broadcast discard has_id
served = refl

serve_ws_client-pushes_example :
    (let c = serve_ws_client hub false tab in
      (has_id c.hub.clients c.queue ≡ c.serving)
      × (rest : List ℕ) × (pushes c.sent ++ rest ≡ all_broadcast tab)
      × (c.serving ≡ true → rest ≡ []))
serve_ws_client-pushes_example = serve_ws_client-pushes hub false tab refl
