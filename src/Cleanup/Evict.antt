-- ===== src/Cleanup/Evict.antt =====
-- The loop of cleanup.py that chooses what to delete: the fewest of the oldest that are enough.
use bark_detector.Prelude.{
  ℕ, ◌-◌, ◌≡◌, refl, ap, ◌⊎◌, inl, inr, true, false, List, [], ◌∷◌, ◌++◌, arith, Bool-cases,
}
use bark_detector.Float.{Float}
use bark_detector.EventStore.{Row}
use bark_detector.Cleanup.{Disk, safe_size, total_size, evict}

module _ {F : Type 0} ⦃fl : Float F⦄ (d : Disk) (max_bytes : F) where
  -- Before each victim was taken, the rows from it on were too large.
  abbrev pub Needed : List (Row F) → List (Row F) → Type 0
  Needed [] kept = Unit
  Needed (v ∷ victims) kept =
      (fl.of_ℕ_le (total_size d (v ∷ (victims ++ kept))) max_bytes ≡ false) × Needed victims kept

  pub record Evicts (rows victims : List (Row F)) : Type 0 where
    pub kept : List (Row F)
    pub joined : victims ++ kept ≡ rows
    pub enough : (fl.of_ℕ_le (total_size d kept) max_bytes ≡ true) ⊎ (kept ≡ [])
    pub needed : Needed victims kept

  -- Where the running total starts at the size of all rows: the victims are a prefix of the rows;
  -- what is kept fits or is nothing at all, and no victim was taken while what was left did fit.
  pub evict-Evicts :
      (total : ℕ) (rows : List (Row F))
      → total ≡ total_size d rows
      → Evicts rows (evict d max_bytes total rows)
  unfolding evict total_size
  evict-Evicts total [] e = record { kept = []; joined = refl; enough = inr refl; needed = tt }
  evict-Evicts total (row ∷ rows) e = elim (Bool-cases (fl.of_ℕ_le total max_bytes)) [
    | inl fits ↦
        rw fits
          (record { kept = row ∷ rows; joined = refl; enough = inl (rw (← e) fits); needed = tt })
    | inr over ↦
        let rest = evict-Evicts (total - safe_size d row.file) rows (omega arith) in
        rw over (record {
          kept = rest.kept;
          joined = ap (◌∷◌ row) rest.joined;
          enough = rest.enough;
          needed = (rw (rest.joined, ← e) over, rest.needed);
        })
  ]
