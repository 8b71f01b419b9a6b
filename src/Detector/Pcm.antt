-- ===== src/Detector/Pcm.antt =====
-- `pcm_chunk_to_waveform` of detector.py. numpy is outside: what the code calls of it is an argument.
use bark_detector.Prelude.{Option, some, if◌then◌else◌, ◌>>=◌}
use bark_detector.Float.{Float}
use bark_detector.AudioFormat.{Bytes}

-- What the code calls of numpy, with `Samples` for arrays of int16 and `Array` for arrays of
-- float32.
pub record Numpy (F Samples Array : Type 0) : Type 0 where
  -- with `dtype=np.int16`; `none` where it raises
  pub frombuffer : Bytes → Option Samples
  pub astype_float32 : Samples → Array
  pub square : Array → Array
  pub absolute : Array → Array
  pub mean : Array → F
  pub sqrt : F → F
  pub log10 : F → F
  -- `(audio / x).astype(np.float32)`
  pub divided : Samples → F → Array

abbrev pub audio_max_bit_range : {F : Type 0} → Float F → F
audio_max_bit_range fl = fl.decimal 32768 0

module _ {F Samples Array : Type 0} ⦃fl : Float F⦄ (np : Numpy F Samples Array) where
  unfoldable pub rms_of : Array → F
  rms_of audio_as_float = np.sqrt (np.mean (np.absolute (np.square audio_as_float)))

  unfoldable pub dbfs_of : F → F
  dbfs_of rms =
      let level = fl.mul (fl.decimal 20 0) (np.log10 (fl.div rms (audio_max_bit_range fl))) in
      if fl.lt (fl.decimal 0 0) rms then level else fl.decimal 0 0

  -- The waveform, its volume and the level in dBFS.
  unfoldable pub pcm_chunk_to_waveform : Bytes → Option (Array × F × F)
  unfolding rms_of dbfs_of
  pcm_chunk_to_waveform chunk = do
    audio ← np.frombuffer chunk
    some (
      np.divided audio (audio_max_bit_range fl),
      rms_of (np.astype_float32 audio),
      dbfs_of (rms_of (np.astype_float32 audio)),
    )
