-- ===== src/AudioSource/Processes.antt =====
-- No ffmpeg process is lost, whatever the thread of audio_source.py and the controller do.
use bark_detector.Prelude.{
  ℕ, ◌≡◌, refl, Bool, true, false, Option, none, some, List, [], ◌∷◌, ◌∙◌, ap, arith, if◌then◌else◌,
  ltb, length,
}
use mathlib.Core.Path.{subst}
use bark_detector.AudioFormat.{Bytes, chunk_bytes}
use bark_detector.WsHub.{discard}
use bark_detector.AudioSource.{
  Place, launching, looping, fetching, refetching, waiting, handling, restarting, resuming,
  retrying, finishing, finished, crashed, FfmpegAudioSource, Turn, init, start, stop, step, fetch,
  Action, run, set_stop_event, force_stop, perform, perform_all, stop_held, step_at, refetch,
  after_read,
}

-- The processes that a source knows.
abbrev pub held : Option ℕ → List ℕ
held none = []
held (some p) = p ∷ []

-- The places at which there is no process: those before a `start`, and the end.
abbrev IsIdle : Place → Option ℕ → Type 0
IsIdle launching process = process ≡ none
IsIdle resuming process = process ≡ none
IsIdle retrying process = process ≡ none
IsIdle finished process = process ≡ none
IsIdle place process = Unit

abbrev IsHeld : FfmpegAudioSource → Type 0
IsHeld a = (a.running ≡ held a.process) × IsIdle a.place a.process

discard_only : (p : ℕ) → discard p (p ∷ []) ≡ []
unfolding discard
discard_only p = ground arith

IsIdle-none : (place : Place) → IsIdle place none
IsIdle-none launching = refl
IsIdle-none looping = tt
IsIdle-none fetching = tt
IsIdle-none refetching = tt
IsIdle-none (waiting p) = tt
IsIdle-none (handling chunk) = tt
IsIdle-none restarting = tt
IsIdle-none resuming = refl
IsIdle-none retrying = refl
IsIdle-none finishing = tt
IsIdle-none finished = refl
IsIdle-none crashed = tt

stop_held-IsHeld :
    (a : FfmpegAudioSource) (o : Option ℕ)
    → a.process ≡ o
    → IsHeld a
    → IsHeld (stop_held a o) × ((stop_held a o).process ≡ none)
unfolding stop_held
stop_held-IsHeld a none e kept = (kept, e)
stop_held-IsHeld a (some p) e kept =
    let only : a.running ≡ p ∷ [] = kept.0 ∙ ap held e in
    ((rw only (discard_only p), IsIdle-none a.place), refl)

stop-IsHeld : (a : FfmpegAudioSource) → IsHeld a → IsHeld (stop a) × ((stop a).process ≡ none)
unfolding stop
stop-IsHeld a kept = stop_held-IsHeld a a.process refl kept

-- Where there is no process, a start gives one, and its place asks for no more.
start-IsHeld :
    (a : FfmpegAudioSource) (starts : Bool) (place : Place)
    → a.running ≡ held a.process
    → a.process ≡ none
    → ((o : Option ℕ) → IsIdle place o)
    → IsHeld (start a starts place)
unfolding start
start-IsHeld a true place kept free fine =
    let empty : a.running ≡ [] = kept ∙ ap held free in
    (ap (λ rest. a.next_process ∷ rest) empty, fine (some a.next_process))
start-IsHeld a false place kept free fine = (kept, tt)

fetch-IsHeld :
    (a : FfmpegAudioSource) (starts : Bool) (o : Option ℕ)
    → a.process ≡ o
    → a.running ≡ held a.process
    → IsHeld (fetch a starts o)
unfolding fetch
fetch-IsHeld a starts none e kept = start-IsHeld a starts refetching kept e (λ o. tt)
fetch-IsHeld a starts (some p) e kept = (kept, tt)

IsIdle-if :
    (b : Bool) (p q : Place) (process : Option ℕ)
    → IsIdle p process
    → IsIdle q process
    → IsIdle (if b then p else q) process
IsIdle-if true p q process first second = first
IsIdle-if false p q process first second = second

IsIdle-refetch : (o process : Option ℕ) → IsIdle (refetch o) process
unfolding refetch
IsIdle-refetch none process = tt
IsIdle-refetch (some p) process = tt

IsIdle-after_read :
    (read : Option Bytes) (exited : Bool) (process : Option ℕ)
    → IsIdle (after_read read exited) process
unfolding after_read
IsIdle-after_read none exited process = tt
IsIdle-after_read (some chunk) exited process =
    IsIdle-if (ltb (length chunk) chunk_bytes) (if exited then restarting else looping)
      (handling chunk) process (IsIdle-if exited restarting looping process tt tt) tt

step_at-IsHeld :
    (a : FfmpegAudioSource) (turn : Turn) (place : Place)
    → a.place ≡ place
    → IsHeld a
    → IsHeld (step_at a turn place)
unfolding step_at
step_at-IsHeld a turn launching e kept =
    start-IsHeld a turn.starts looping kept.0 (subst (λ q. IsIdle q a.process) e kept.1) (λ o. tt)
step_at-IsHeld a turn looping e kept =
    (kept.0, IsIdle-if a.stop_event finishing fetching a.process tt tt)
step_at-IsHeld a turn fetching e kept = fetch-IsHeld a turn.starts a.process refl kept.0
step_at-IsHeld a turn refetching e kept = (kept.0, IsIdle-refetch a.process a.process)
step_at-IsHeld a turn (waiting p) e kept =
    (kept.0, IsIdle-after_read turn.read turn.exited a.process)
step_at-IsHeld a turn (handling chunk) e kept =
    (kept.0, IsIdle-if turn.handles looping crashed a.process tt tt)
step_at-IsHeld a turn restarting e kept =
    let (stopped, free) = stop-IsHeld a kept in (stopped.0, free)
step_at-IsHeld a turn resuming e kept =
    let free = subst (λ q. IsIdle q a.process) e kept.1 in
    (kept.0, IsIdle-if a.stop_event looping retrying a.process tt free)
step_at-IsHeld a turn retrying e kept =
    start-IsHeld a turn.starts looping kept.0 (subst (λ q. IsIdle q a.process) e kept.1) (λ o. tt)
step_at-IsHeld a turn finishing e kept =
    let (stopped, free) = stop-IsHeld a kept in (stopped.0, free)
step_at-IsHeld a turn finished e kept = kept
step_at-IsHeld a turn crashed e kept = kept

perform-IsHeld : (a : FfmpegAudioSource) (action : Action) → IsHeld a → IsHeld (perform a action)
unfolding perform step
perform-IsHeld a (run turn) kept = step_at-IsHeld a turn a.place refl kept
perform-IsHeld a set_stop_event kept = kept
perform-IsHeld a force_stop kept = (stop-IsHeld a kept).0

pub perform_all-IsHeld :
    (a : FfmpegAudioSource) (actions : List Action) → IsHeld a → IsHeld (perform_all a actions)
unfolding perform_all
perform_all-IsHeld a [] kept = kept
perform_all-IsHeld a (action ∷ actions) kept =
    perform_all-IsHeld (perform a action) actions (perform-IsHeld a action kept)

-- However the steps of the thread and the calls of the controller interleave, and whatever ffmpeg
-- and the files do, the only process that was started and not ended is the one that the source
-- holds, and once the thread has come to its end there is none.
pub held_only :
    (actions : List Action)
    → let a = perform_all init actions in
      (a.running ≡ held a.process) × (a.place ≡ finished → a.running ≡ [])
unfolding init
held_only actions =
    let kept = perform_all-IsHeld init actions (refl, refl) in
    (
      kept.0,
      (λ e.
          let free = subst (λ q. IsIdle q (perform_all init actions).process) e kept.1 in
          kept.0 ∙ ap held free),
    )
