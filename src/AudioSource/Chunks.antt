-- ===== src/AudioSource/Chunks.antt =====
-- What `read_chunk` of audio_source.py hands on is a whole chunk.
use bark_detector.Prelude.{
  ℕ, ◌≤◌, ◌≡◌, refl, Bool, true, false, Option, none, some, List, [], ◌∷◌, arith, if◌then◌else◌,
  ltb, length, Bool-cases, inl, inr,
}
use mathlib.Core.Path.{subst}
use bark_detector.AudioFormat.{Bytes, chunk_bytes}
use bark_detector.AudioSource.{
  Place, launching, looping, fetching, refetching, waiting, handling, restarting, resuming,
  retrying, finishing, finished, crashed, FfmpegAudioSource, Turn, init, start, stop, stop_held,
  step, step_at, fetch, refetch, after_read, Action, run, set_stop_event, force_stop, perform,
  perform_all,
}

-- The chunk at which the thread stands is whole.
abbrev IsWhole : Place → Type 0
IsWhole (handling chunk) = length chunk ≡ chunk_bytes
IsWhole place = Unit

-- No read gives more than it asks for.
abbrev pub ReadsAtMost : ℕ → List Action → Type 0
ReadsAtMost n [] = Unit
ReadsAtMost n (run turn ∷ actions) =
    ((chunk : Bytes) → turn.read ≡ some chunk → length chunk ≤ n) × ReadsAtMost n actions
ReadsAtMost n (set_stop_event ∷ actions) = ReadsAtMost n actions
ReadsAtMost n (force_stop ∷ actions) = ReadsAtMost n actions

IsWhole-if : (b : Bool) (p q : Place) → IsWhole p → IsWhole q → IsWhole (if b then p else q)
IsWhole-if true p q first second = first
IsWhole-if false p q first second = second

start-IsWhole :
    (a : FfmpegAudioSource) (starts : Bool) (place : Place)
    → IsWhole place
    → IsWhole (start a starts place).place
unfolding start
start-IsWhole a true place whole = whole
start-IsWhole a false place whole = tt

stop_held-IsWhole :
    (a : FfmpegAudioSource) (o : Option ℕ) → IsWhole a.place → IsWhole (stop_held a o).place
unfolding stop_held
stop_held-IsWhole a none whole = whole
stop_held-IsWhole a (some p) whole = whole

fetch-IsWhole :
    (a : FfmpegAudioSource) (starts : Bool) (o : Option ℕ) → IsWhole (fetch a starts o).place
unfolding fetch
fetch-IsWhole a starts none = start-IsWhole a starts refetching tt
fetch-IsWhole a starts (some p) = tt

refetch-IsWhole : (o : Option ℕ) → IsWhole (refetch o)
unfolding refetch
refetch-IsWhole none = tt
refetch-IsWhole (some p) = tt

not_short : (n m : ℕ) → ltb n m ≡ false → n ≤ m → n ≡ m
not_short n m full most = ground arith

after_read-IsWhole :
    (read : Option Bytes) (exited : Bool)
    → ((chunk : Bytes) → read ≡ some chunk → length chunk ≤ chunk_bytes)
    → IsWhole (after_read read exited)
unfolding after_read
after_read-IsWhole none exited most = tt
after_read-IsWhole (some chunk) exited most = elim (Bool-cases (ltb (length chunk) chunk_bytes)) [
  | inl short ↦ rw short (IsWhole-if exited restarting looping tt tt)
  | inr full ↦ rw full (not_short (length chunk) chunk_bytes full (most chunk refl))
]

step_at-IsWhole :
    (a : FfmpegAudioSource) (turn : Turn) (place : Place)
    → a.place ≡ place
    → ((chunk : Bytes) → turn.read ≡ some chunk → length chunk ≤ chunk_bytes)
    → IsWhole a.place
    → IsWhole (step_at a turn place).place
unfolding step_at
step_at-IsWhole a turn launching e most whole = start-IsWhole a turn.starts looping tt
step_at-IsWhole a turn looping e most whole = IsWhole-if a.stop_event finishing fetching tt tt
step_at-IsWhole a turn fetching e most whole = fetch-IsWhole a turn.starts a.process
step_at-IsWhole a turn refetching e most whole = refetch-IsWhole a.process
step_at-IsWhole a turn (waiting p) e most whole = after_read-IsWhole turn.read turn.exited most
step_at-IsWhole a turn (handling chunk) e most whole = IsWhole-if turn.handles looping crashed tt tt
step_at-IsWhole a turn restarting e most whole = tt
step_at-IsWhole a turn resuming e most whole = IsWhole-if a.stop_event looping retrying tt tt
step_at-IsWhole a turn retrying e most whole = start-IsWhole a turn.starts looping tt
step_at-IsWhole a turn finishing e most whole = tt
step_at-IsWhole a turn finished e most whole = whole
step_at-IsWhole a turn crashed e most whole = whole

perform_all-IsWhole :
    (a : FfmpegAudioSource) (actions : List Action)
    → ReadsAtMost chunk_bytes actions
    → IsWhole a.place
    → IsWhole (perform_all a actions).place
unfolding perform_all perform step stop
perform_all-IsWhole a [] most whole = whole
perform_all-IsWhole a (run turn ∷ actions) most whole =
    perform_all-IsWhole (step a turn) actions most.1
      (step_at-IsWhole a turn a.place refl most.0 whole)
perform_all-IsWhole a (set_stop_event ∷ actions) most whole =
    perform_all-IsWhole (record a { stop_event = true }) actions most whole
perform_all-IsWhole a (force_stop ∷ actions) most whole =
    perform_all-IsWhole (stop a) actions most (stop_held-IsWhole a a.process whole)

-- Where reads give no more bytes than they ask for, every chunk that the thread hands to
-- `_process_chunk` has exactly CHUNK_BYTES bytes, whatever else happens.
pub handled_whole :
    (actions : List Action) (chunk : Bytes)
    → ReadsAtMost chunk_bytes actions
    → (perform_all init actions).place ≡ handling chunk
    → length chunk ≡ chunk_bytes
unfolding init
handled_whole actions chunk most e = subst IsWhole e (perform_all-IsWhole init actions most tt)
