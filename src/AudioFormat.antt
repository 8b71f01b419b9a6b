-- ===== src/AudioFormat.antt =====
-- audio_format.py: the constants of the audio stream.
use bark_detector.Prelude.{ℕ, ◌*◌, ◌/◌, List}
use bark_detector.Float.{Float}

abbrev pub audio_sample_rate : ℕ
audio_sample_rate = 16000

-- 0.975 seconds in a chunk
abbrev pub audio_duration : {F : Type 0} → Float F → F
audio_duration fl = fl.decimal 975 3

-- 0.975 * 16000 samples, which is a whole number
abbrev pub chunk_samples : ℕ
chunk_samples = 975 * audio_sample_rate / 1000

abbrev pub chunk_bytes : ℕ
chunk_bytes = chunk_samples * 2

-- Raw PCM bytes.
abbrev pub Bytes : Type 0
Bytes = List ℕ
