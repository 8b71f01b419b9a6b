-- ===== src/Config/AtomicWrite.antt =====
-- `_atomic_write` of config.py: a temporary file that is renamed. What the calls of the operating
-- system do is outside: the record `Calls` says which of them succeed.
use bark_detector.Prelude.{
  ◌≡◌, ◌⊎◌, inl, inr, refl, sym, ap, ◌∙◌, String, Bool, true, false, Option, none, some, List, [],
  ◌∷◌, str_eq, eq_iff, eq_refl, lookup, rename, moved, insert, remove, lookup-insert, lookup-remove,
  arith, if◌then◌else◌, Bool-cases,
}

-- The name that `mkstemp` makes a file at, if it can; what is in that file when `write_fn` or the
-- closing of the file raises, or nothing if they do not.
pub record Calls (T : Type 0) : Type 0 where
  pub makedirs : Bool
  pub mkstemp : Option String
  pub broken : Option T
  pub replace : Bool
  pub remove : Bool

abbrev pub Disk : Type 0 → Type 0
Disk T = List (String × T)

-- The disk after each of the calls, and whether the function raised.
pub record Written (T : Type 0) : Type 0 where
  pub disks : List (Disk T)
  pub raised : Bool

-- The disk when the function is left.
abbrev pub last_disk : {T : Type 0} → Disk T → List (Disk T) → Disk T
last_disk disk [] = disk
last_disk disk (d ∷ disks) = last_disk d disks

module _ {T : Type 0} (calls : Calls T) (empty text : T) (path : String) where
  -- The `except` clause.
  cleaned : String → Disk T → List (Disk T)
  cleaned tmp disk = (if calls.remove then remove tmp disk else disk) ∷ []

  replaced : String → Disk T → Option (Disk T) → Written T
  unfolding cleaned
  replaced tmp disk none = record { disks = disk ∷ cleaned tmp disk; raised = true }
  replaced tmp disk (some next) = record { disks = disk ∷ next ∷ []; raised = false }

  -- After `write_fn`, on the disk with the temporary file.
  after_write : String → Disk T → Option T → Written T
  unfolding cleaned replaced
  after_write tmp disk (some part) =
      let next = insert tmp part disk in record { disks = next ∷ cleaned tmp next; raised = true }
  after_write tmp disk none =
      let next = insert tmp text disk in
      replaced tmp next (if calls.replace then rename tmp path next else none)

  with_tmp : Disk T → Option String → Written T
  unfolding after_write
  with_tmp disk none = record { disks = []; raised = true }
  with_tmp disk (some tmp) =
      let opened = insert tmp empty disk in
      let rest = after_write tmp opened calls.broken in
      record { disks = opened ∷ rest.disks; raised = rest.raised }

  unfoldable pub atomic_write : Disk T → Written T
  unfolding with_tmp
  atomic_write disk =
      let tried = with_tmp disk calls.mkstemp in
      if calls.makedirs then tried else record { disks = []; raised = true }

-- What a write of the text at the path keeps.
module _ {T : Type 0} (text : T) (path : String) where
  -- At the path there is what was there or the new text, and other files are as they were.
  abbrev pub IsWhole : Option String → Disk T → Disk T → Type 0
  IsWhole tmp disk d =
      ((lookup path d ≡ lookup path disk) ⊎ (lookup path d ≡ some text))
      × ((other : String)
          → str_eq path other ≡ false
          → (tmp ≡ some other → ⊥)
          → lookup other d ≡ lookup other disk)

  abbrev pub AllWhole : Option String → Disk T → List (Disk T) → Type 0
  AllWhole tmp disk [] = Unit
  AllWhole tmp disk (d ∷ disks) = IsWhole tmp disk d × AllWhole tmp disk disks

-- `mkstemp` makes a new file.
abbrev pub IsNew : {T : Type 0} → String → Option String → Disk T → Type 0
IsNew path none disk = Unit
IsNew path (some tmp) disk = (lookup tmp disk ≡ none) × (str_eq tmp path ≡ false)

module _ {T : Type 0} where
  -- The disk with something else, or nothing, under the temporary name.
  abbrev Except : String → Option T → Disk T → Disk T → Type 0
  Except tmp v disk d =
      (other : String) → lookup other d ≡ (if str_eq tmp other then v else lookup other disk)

  Except-self : (tmp : String) (disk : Disk T) → lookup tmp disk ≡ none → Except tmp none disk disk
  Except-self tmp disk new other = elim (Bool-cases (str_eq tmp other)) [
    | inl e ↦ rw e (ap (λ k. lookup k disk) (sym ((eq_iff tmp other).0 e)) ∙ new)
    | inr e ↦ rw e refl
  ]

  Except-insert :
      (tmp : String) (v : Option T) (x : T) (disk d : Disk T)
      → Except tmp v disk d
      → Except tmp (some x) disk (insert tmp x d)
  Except-insert tmp v x disk d h other = ground (arith, lookup-insert tmp other x d, h other)

  Except-remove :
      (tmp : String) (v : Option T) (disk d : Disk T)
      → Except tmp v disk d
      → Except tmp none disk (remove tmp d)
  Except-remove tmp v disk d h other = ground (arith, lookup-remove tmp other d, h other)

  Except-IsWhole :
      (text : T) (path tmp : String) (v : Option T) (disk d : Disk T)
      → str_eq tmp path ≡ false
      → Except tmp v disk d
      → IsWhole text path (some tmp) disk d
  Except-IsWhole text path tmp v disk d apart h =
      (inl (h path ∙ rw apart refl), λ other p q. h other ∙ elsewhere other q)
    where
      elsewhere :
          (other : String)
          → (◌≡◌ {A = Option String} (some tmp) (some other) → ⊥)
          → (if str_eq tmp other then v else lookup other disk) ≡ lookup other disk
      elsewhere other q = elim (Bool-cases (str_eq tmp other)) [
        | inl e ↦ absurd (q (ap some ((eq_iff tmp other).0 e)))
        | inr e ↦ rw e refl
      ]

  -- The renamed file.
  renamed_disk :
      (path tmp : String) (text : T) (disk d : Disk T)
      → str_eq tmp path ≡ false
      → lookup tmp disk ≡ none
      → Except tmp (some text) disk d
      → (next : Disk T) × (rename tmp path d ≡ some next)
        × ((other : String) → lookup other next ≡ lookup other (insert path text disk))
  unfolding rename moved
  renamed_disk path tmp text disk d apart new h =
      let there : lookup tmp d ≡ some text = h tmp ∙ rw (eq_refl tmp) refl in
      (
        insert path text (remove tmp d),
        rw there refl,
        λ other.
            lookup-insert path other text (remove tmp d)
            ∙ ap (λ o. if str_eq path other then some text else o)
                (Except-remove tmp (some text) disk d h other
                  ∙ sym (Except-self tmp disk new other))
            ∙ sym (lookup-insert path other text disk),
      )

module _ {T : Type 0} (calls : Calls T) (empty text : T) (path : String) (disk : Disk T) where
  -- What a call that raised or returned has left.
  record IsAtomic (tmp : Option String) (w : Written T) : Type 0 where
    whole : AllWhole text path tmp disk w.disks
    replaced_if :
        w.raised ≡ false
        → (other : String)
        → lookup other (last_disk disk w.disks) ≡ lookup other (insert path text disk)
    kept_if :
        w.raised ≡ true
        → calls.remove ≡ true
        → (other : String) → lookup other (last_disk disk w.disks) ≡ lookup other disk

  module _ (tmp : String) (apart : str_eq tmp path ≡ false) (new : lookup tmp disk ≡ none) where
    IsWhole-of :
        (v : Option T) (d : Disk T) → Except tmp v disk d → IsWhole text path (some tmp) disk d
    IsWhole-of v d h = Except-IsWhole text path tmp v disk d apart h

    cleaned-AllWhole :
        (v : Option T) (d : Disk T)
        → Except tmp v disk d
        → AllWhole text path (some tmp) disk (cleaned calls empty text path tmp d)
    unfolding cleaned
    cleaned-AllWhole v d h = elim (Bool-cases calls.remove) [
      | inl e ↦ rw e (IsWhole-of none _ (Except-remove tmp v disk d h), tt)
      | inr e ↦ rw e (IsWhole-of v d h, tt)
    ]

    cleaned-kept :
        (v : Option T) (d : Disk T)
        → Except tmp v disk d
        → calls.remove ≡ true
        → (other : String)
        → lookup other (last_disk d (cleaned calls empty text path tmp d)) ≡ lookup other disk
    unfolding cleaned
    cleaned-kept v d h e other =
        rw e (Except-remove tmp v disk d h other ∙ sym (Except-self tmp disk new other))

    -- The disk after the rename.
    IsWhole-after :
        (next : Disk T)
        → ((other : String) → lookup other next ≡ lookup other (insert path text disk))
        → IsWhole text path (some tmp) disk next
    IsWhole-after next same = (
      inr (same path ∙ (lookup-insert path path text disk ∙ rw (eq_refl path) refl)),
      λ other p q. same other ∙ (lookup-insert path other text disk ∙ rw p refl),
    )

    opened_Except : Except tmp (some empty) disk (insert tmp empty disk)
    opened_Except = Except-insert tmp none empty disk disk (Except-self tmp disk new)

    after_write-IsAtomic :
        (broken : Option T)
        → IsAtomic (some tmp) (
            let rest = after_write calls empty text path tmp (insert tmp empty disk) broken in
            record { disks = insert tmp empty disk ∷ rest.disks; raised = rest.raised })
    unfolding after_write
    after_write-IsAtomic (some part) =
        let h = Except-insert tmp (some empty) part disk _ opened_Except in
        record {
          whole = (IsWhole-of _ _ opened_Except, (IsWhole-of _ _ h, cleaned-AllWhole _ _ h));
          replaced_if = λ e. absurd (cc);
          kept_if = λ e r. cleaned-kept _ _ h r;
        }
    after_write-IsAtomic none =
        let h = Except-insert tmp (some empty) text disk _ opened_Except in
        elim (Bool-cases calls.replace) [
          | inl e ↦
              let (next, f, same) = renamed_disk path tmp text disk _ apart new h in
              rw e (
                rw f (record {
                  whole = (
                    IsWhole-of _ _ opened_Except,
                    (IsWhole-of _ _ h, (IsWhole-after next same, tt)),
                  );
                  replaced_if = λ r other. same other;
                  kept_if = λ r k. absurd (cc);
                }))
          | inr e ↦ rw e (record {
            whole = (IsWhole-of _ _ opened_Except, (IsWhole-of _ _ h, cleaned-AllWhole _ _ h));
            replaced_if = λ r. absurd (cc);
            kept_if = λ r k. cleaned-kept _ _ h k;
          })
        ]

  untouched : (tmp : Option String) → IsAtomic tmp (record { disks = []; raised = true })
  untouched tmp = record { whole = tt; replaced_if = λ e. absurd (cc); kept_if = λ e r other. refl }

  with_tmp-IsAtomic :
      (tmp : Option String)
      → IsNew path tmp disk
      → IsAtomic tmp (with_tmp calls empty text path disk tmp)
  unfolding with_tmp
  with_tmp-IsAtomic none new = untouched none
  with_tmp-IsAtomic (some tmp) (new, apart) = after_write-IsAtomic tmp apart new calls.broken

  -- Where `mkstemp` makes a new file, at every moment of `_atomic_write`, and so wherever it is
  -- interrupted, there is at the path what was there or the whole new text, and the files but the
  -- temporary one are as they were. If it returns, the new text is at the path and nothing else has
  -- changed; if it raises and the temporary file can be removed, nothing has changed.
  pub atomic_write_lem :
      IsNew path calls.mkstemp disk
      → (let w = atomic_write calls empty text path disk in
          AllWhole text path calls.mkstemp disk w.disks
          × (w.raised ≡ false
              → (other : String)
              → lookup other (last_disk disk w.disks) ≡ lookup other (insert path text disk))
          × (w.raised ≡ true
              → calls.remove ≡ true
              → (other : String) → lookup other (last_disk disk w.disks) ≡ lookup other disk))
  unfolding atomic_write
  atomic_write_lem new = elim (Bool-cases calls.makedirs) [
    | inl e ↦
        let a = with_tmp-IsAtomic calls.mkstemp new in rw e (a.whole, a.replaced_if, a.kept_if)
    | inr e ↦ let a = untouched calls.mkstemp in rw e (a.whole, a.replaced_if, a.kept_if)
  ]
