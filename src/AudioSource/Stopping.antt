-- ===== src/AudioSource/Stopping.antt =====
-- The thread of audio_source.py ends soon after its stop event is set.
use bark_detector.Prelude.{
  ℕ, suc, ◌+◌, ◌-◌, ◌≤◌, ◌≡◌, refl, ap, ◌∙◌, Bool, true, false, Option, none, some, List, [], ◌∷◌,
  ◌⊎◌, inl, inr, arith, if◌then◌else◌, ltb, length, Bool-cases,
}
use bark_detector.AudioFormat.{Bytes, chunk_bytes}
use bark_detector.AudioSource.{
  Place, launching, looping, fetching, refetching, waiting, handling, restarting, resuming,
  retrying, finishing, finished, crashed, FfmpegAudioSource, Turn, start, stop, stop_held, step,
  step_at, fetch, refetch, after_read, Action, run, set_stop_event, force_stop, perform,
  perform_all,
}

-- The turns to the end of the thread at most, once the stop event is set.
abbrev turns_left : Place → ℕ
turns_left launching = 3
turns_left looping = 2
turns_left fetching = 7
turns_left refetching = 6
turns_left (waiting p) = 5
turns_left (handling chunk) = 3
turns_left restarting = 4
turns_left resuming = 3
turns_left retrying = 3
turns_left finishing = 1
turns_left finished = 0
turns_left crashed = 0

-- The processes that may still be started then.
abbrev starts_left : Place → ℕ
starts_left launching = 1
starts_left looping = 0
starts_left fetching = 1
starts_left refetching = 0
starts_left (waiting p) = 0
starts_left (handling chunk) = 0
starts_left restarting = 0
starts_left resuming = 0
starts_left retrying = 1
starts_left finishing = 0
starts_left finished = 0
starts_left crashed = 0

-- The turns of the thread among the actions.
abbrev pub turns : List Action → ℕ
turns [] = 0
turns (run turn ∷ actions) = suc (turns actions)
turns (set_stop_event ∷ actions) = turns actions
turns (force_stop ∷ actions) = turns actions

-- Where the thread goes from a place.
IsNext : FfmpegAudioSource → Place → FfmpegAudioSource → Type 0
IsNext a place b =
    (b.stop_event ≡ true)
    × (turns_left b.place ≤ turns_left place - 1)
    × (b.next_process + starts_left b.place ≤ a.next_process + starts_left place)

start-IsNext :
    (a : FfmpegAudioSource) (starts : Bool) (place goal : Place)
    → a.stop_event ≡ true
    → starts_left place ≡ 1
    → starts_left goal ≡ 0
    → turns_left goal ≤ turns_left place - 1
    → IsNext a place (start a starts goal)
unfolding start IsNext
start-IsNext a true place goal set one zero' less = (set, less, omega arith)
start-IsNext a false place goal set one zero' less = (set, omega arith, omega arith)

fetch-IsNext :
    (a : FfmpegAudioSource) (starts : Bool) (o : Option ℕ)
    → a.stop_event ≡ true
    → IsNext a fetching (fetch a starts o)
unfolding fetch IsNext
fetch-IsNext a starts none set =
    start-IsNext a starts fetching refetching set refl refl (omega arith)
fetch-IsNext a starts (some p) set = (set, omega arith, omega arith)

refetch_left : (o : Option ℕ) → (turns_left (refetch o) ≤ 5) × (starts_left (refetch o) ≡ 0)
unfolding refetch
refetch_left none = (omega arith, refl)
refetch_left (some p) = (omega arith, refl)

after_read_left :
    (read : Option Bytes) (exited : Bool)
    → (turns_left (after_read read exited) ≤ 4) × (starts_left (after_read read exited) ≡ 0)
unfolding after_read
after_read_left none exited = (omega arith, refl)
after_read_left (some chunk) true = elim (Bool-cases (ltb (length chunk) chunk_bytes)) [
  | inl short ↦ rw short (omega arith, refl)
  | inr full ↦ rw full (omega arith, refl)
]
after_read_left (some chunk) false = elim (Bool-cases (ltb (length chunk) chunk_bytes)) [
  | inl short ↦ rw short (omega arith, refl)
  | inr full ↦ rw full (omega arith, refl)
]

handled_left :
    (b : Bool)
    → (turns_left (if b then looping else crashed) ≤ 2)
      × (starts_left (if b then looping else crashed) ≡ 0)
handled_left true = (omega arith, refl)
handled_left false = (omega arith, refl)

-- `stop` changes neither the event, nor the place, nor what was started.
stop_held_same :
    (a : FfmpegAudioSource) (o : Option ℕ)
    → ((stop_held a o).stop_event ≡ a.stop_event)
      × ((stop_held a o).place ≡ a.place)
      × ((stop_held a o).next_process ≡ a.next_process)
unfolding stop_held
stop_held_same a none = (refl, refl, refl)
stop_held_same a (some p) = (refl, refl, refl)

stopped-IsNext :
    (a : FfmpegAudioSource) (place goal : Place)
    → a.stop_event ≡ true
    → starts_left goal ≡ 0
    → turns_left goal ≤ turns_left place - 1
    → IsNext a place (record (stop a) { place = goal })
unfolding IsNext stop
stopped-IsNext a place goal set none_left less =
    let (event, place_same, next) = stop_held_same a a.process in (event ∙ set, less, omega arith)

step_at-IsNext :
    (a : FfmpegAudioSource) (turn : Turn) (place : Place)
    → a.place ≡ place
    → a.stop_event ≡ true
    → IsNext a place (step_at a turn place)
unfolding step_at IsNext
step_at-IsNext a turn launching e set =
    start-IsNext a turn.starts launching looping set refl refl (omega arith)
step_at-IsNext a turn looping e set = rw set (refl, omega arith, omega arith)
step_at-IsNext a turn fetching e set = fetch-IsNext a turn.starts a.process set
step_at-IsNext a turn refetching e set =
    let left = refetch_left a.process in (set, omega arith, omega arith)
step_at-IsNext a turn (waiting p) e set =
    let left = after_read_left turn.read turn.exited in (set, omega arith, omega arith)
step_at-IsNext a turn (handling chunk) e set =
    let left = handled_left turn.handles in (set, omega arith, omega arith)
step_at-IsNext a turn restarting e set = stopped-IsNext a restarting resuming set refl (omega arith)
step_at-IsNext a turn resuming e set = rw set (refl, omega arith, omega arith)
step_at-IsNext a turn retrying e set =
    start-IsNext a turn.starts retrying looping set refl refl (omega arith)
step_at-IsNext a turn finishing e set = stopped-IsNext a finishing finished set refl (omega arith)
step_at-IsNext a turn finished e set = (set, rw e (omega arith), rw e (omega arith))
step_at-IsNext a turn crashed e set = (set, rw e (omega arith), rw e (omega arith))

-- What holds after actions from a source whose stop event is set.
abbrev IsCloser : FfmpegAudioSource → ℕ → FfmpegAudioSource → Type 0
IsCloser a n b =
    (turns_left b.place ≤ turns_left a.place - n)
    × (b.next_process + starts_left b.place ≤ a.next_process + starts_left a.place)

perform_all-IsCloser :
    (a : FfmpegAudioSource) (actions : List Action)
    → a.stop_event ≡ true
    → IsCloser a (turns actions) (perform_all a actions)
unfolding perform_all perform step IsNext stop
perform_all-IsCloser a [] set = (omega arith, omega arith)
perform_all-IsCloser a (run turn ∷ actions) set =
    let next = step_at-IsNext a turn a.place refl set in
    let rest = perform_all-IsCloser (step a turn) actions next.0 in (omega arith, omega arith)
perform_all-IsCloser a (set_stop_event ∷ actions) set =
    perform_all-IsCloser (record a { stop_event = true }) actions refl
perform_all-IsCloser a (force_stop ∷ actions) set =
    let (event, place_same, next) = stop_held_same a a.process in
    let rest = perform_all-IsCloser (stop a) actions (event ∙ set) in
    let same_turns = ap turns_left place_same in
    let same_starts = ap starts_left place_same in (omega arith, omega arith)

turns_left_most : (place : Place) → (turns_left place ≤ 7) × (starts_left place ≤ 1)
turns_left_most launching = (omega arith, omega arith)
turns_left_most looping = (omega arith, omega arith)
turns_left_most fetching = (omega arith, omega arith)
turns_left_most refetching = (omega arith, omega arith)
turns_left_most (waiting p) = (omega arith, omega arith)
turns_left_most (handling chunk) = (omega arith, omega arith)
turns_left_most restarting = (omega arith, omega arith)
turns_left_most resuming = (omega arith, omega arith)
turns_left_most retrying = (omega arith, omega arith)
turns_left_most finishing = (omega arith, omega arith)
turns_left_most finished = (omega arith, omega arith)
turns_left_most crashed = (omega arith, omega arith)

is_over : (place : Place) → turns_left place ≡ 0 → (place ≡ finished) ⊎ (place ≡ crashed)
is_over finished e = inl refl
is_over crashed e = inr refl
is_over launching e = absurd (omega arith)
is_over looping e = absurd (omega arith)
is_over fetching e = absurd (omega arith)
is_over refetching e = absurd (omega arith)
is_over (waiting p) e = absurd (omega arith)
is_over (handling chunk) e = absurd (omega arith)
is_over restarting e = absurd (omega arith)
is_over resuming e = absurd (omega arith)
is_over retrying e = absurd (omega arith)
is_over finishing e = absurd (omega arith)

-- Once the stop event is set, the thread comes to its end, or has crashed, within seven of its turns,
-- whatever the outside gives in them and however often the controller calls `stop` between them, and
-- at most one more process is started.
pub stops_soon :
    (a : FfmpegAudioSource) (actions : List Action)
    → a.stop_event ≡ true
    → 7 ≤ turns actions
    → let b = perform_all a actions in
      ((b.place ≡ finished) ⊎ (b.place ≡ crashed)) × (b.next_process ≤ suc a.next_process)
stops_soon a actions set enough =
    let (near, few) = perform_all-IsCloser a actions set in
    let most = turns_left_most a.place in
    (is_over (perform_all a actions).place (omega arith), omega arith)
