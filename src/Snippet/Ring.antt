-- ===== src/Snippet/Ring.antt =====
-- The pre-roll buffer of snippet.py, a `deque` with a maximal length.
use bark_detector.Prelude.{
  ℕ, ◌≤◌, ◌≡◌, List, [], ◌∷◌, ◌++◌, length, last, length-last-le, last-append-last,
}
use bark_detector.Snippet.{append_bounded}

module _ {ℓ} {A : Type ℓ} (n : ℕ) where
  -- One more item of the stream keeps the buffer at the stream's last `n` items.
  pub append_bounded-last :
      (heard : List A) (x : A) → append_bounded n (last n heard) x ≡ last n (heard ++ x ∷ [])
  unfolding append_bounded
  append_bounded-last heard x = last-append-last n heard x

  pub length-append_bounded-le : (xs : List A) (x : A) → length (append_bounded n xs x) ≤ n
  unfolding append_bounded
  length-append_bounded-le xs x = length-last-le n (xs ++ x ∷ [])
