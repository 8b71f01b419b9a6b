-- ===== src/Controller/Watchdog.antt =====
-- What the status watchdog of controller.py tells of each worker.
use bark_detector.Prelude.{
  ◌≡◌, refl, sym, ap, ◌∙◌, String, true, false, Option, none, some, List, [], ◌∷◌, ◌++◌, lookup,
  lookup-insert, str_eq, eq_iff, eq_refl, arith, if◌then◌else◌, Bool-cases, inl, inr,
}
use bark_detector.Float.{Float}
use bark_detector.Controller.{
  Effect, save_source, delete_source_file, start_thread, stop_and_join, publish_discovery,
  remove_discovery, broadcast_status, publish_status, is_current, poll_one, poll, status_of,
}

-- The statuses without those that the status before them repeats; `old` is the one before them all.
abbrev pub changes_of : Option String → List String → List String
changes_of old [] = []
changes_of none (status ∷ statuses) = status ∷ changes_of (some status) statuses
changes_of (some old) (status ∷ statuses) =
    let rest = changes_of (some status) statuses in
    if str_eq status old then rest else status ∷ rest

abbrev pub last_of : Option String → List String → Option String
last_of old [] = old
last_of old (status ∷ statuses) = last_of (some status) statuses

-- The statuses that subscribers are told, who know a worker that has not connected yet by no message.
abbrev pub but_connecting : List String → List String
but_connecting [] = []
but_connecting (status ∷ statuses) =
    let rest = but_connecting statuses in if str_eq status "connecting" then rest else status ∷ rest

last_of-append :
    (old : Option String) (xs ys : List String)
    → last_of old (xs ++ ys) ≡ last_of (last_of old xs) ys
last_of-append old [] ys = refl
last_of-append old (x ∷ xs) ys = last_of-append (some x) xs ys

changes_of-append :
    (old : Option String) (xs ys : List String)
    → changes_of old (xs ++ ys) ≡ changes_of old xs ++ changes_of (last_of old xs) ys
changes_of-append old [] ys = refl
changes_of-append none (x ∷ xs) ys = ap (◌∷◌ x) (changes_of-append (some x) xs ys)
changes_of-append (some old) (x ∷ xs) ys = ground (arith, changes_of-append (some x) xs ys)

but_connecting-append :
    (xs ys : List String) → but_connecting (xs ++ ys) ≡ but_connecting xs ++ but_connecting ys
but_connecting-append [] ys = refl
but_connecting-append (x ∷ xs) ys = ground (arith, but_connecting-append xs ys)

module _ {F : Type 0} where
  -- The statuses of a worker that the effects tell the browser tabs.
  abbrev pub told_of : String → List (Effect F) → List String
  told_of name [] = []
  told_of name (broadcast_status n s ∷ effects) =
      let rest = told_of name effects in if str_eq n name then s ∷ rest else rest
  told_of name (publish_status n s ∷ effects) = told_of name effects
  told_of name (save_source s ∷ effects) = told_of name effects
  told_of name (delete_source_file n ∷ effects) = told_of name effects
  told_of name (start_thread s ∷ effects) = told_of name effects
  told_of name (stop_and_join s ∷ effects) = told_of name effects
  told_of name (publish_discovery s ∷ effects) = told_of name effects
  told_of name (remove_discovery n ∷ effects) = told_of name effects

  told_of-append :
      (name : String) (xs ys : List (Effect F))
      → told_of name (xs ++ ys) ≡ told_of name xs ++ told_of name ys
  told_of-append name [] ys = refl
  told_of-append name (broadcast_status n s ∷ xs) ys = ground (arith, told_of-append name xs ys)
  told_of-append name (publish_status n s ∷ xs) ys = told_of-append name xs ys
  told_of-append name (save_source s ∷ xs) ys = told_of-append name xs ys
  told_of-append name (delete_source_file n ∷ xs) ys = told_of-append name xs ys
  told_of-append name (start_thread s ∷ xs) ys = told_of-append name xs ys
  told_of-append name (stop_and_join s ∷ xs) ys = told_of-append name xs ys
  told_of-append name (publish_discovery s ∷ xs) ys = told_of-append name xs ys
  told_of-append name (remove_discovery n ∷ xs) ys = told_of-append name xs ys

  -- The statuses of a worker that the effects tell the subscribers of MQTT.
  abbrev pub published_of : String → List (Effect F) → List String
  published_of name [] = []
  published_of name (publish_status n s ∷ effects) =
      let rest = published_of name effects in if str_eq n name then s ∷ rest else rest
  published_of name (broadcast_status n s ∷ effects) = published_of name effects
  published_of name (save_source s ∷ effects) = published_of name effects
  published_of name (delete_source_file n ∷ effects) = published_of name effects
  published_of name (start_thread s ∷ effects) = published_of name effects
  published_of name (stop_and_join s ∷ effects) = published_of name effects
  published_of name (publish_discovery s ∷ effects) = published_of name effects
  published_of name (remove_discovery n ∷ effects) = published_of name effects

  published_of-append :
      (name : String) (xs ys : List (Effect F))
      → published_of name (xs ++ ys) ≡ published_of name xs ++ published_of name ys
  published_of-append name [] ys = refl
  published_of-append name (publish_status n s ∷ xs) ys =
      ground (arith, published_of-append name xs ys)
  published_of-append name (broadcast_status n s ∷ xs) ys = published_of-append name xs ys
  published_of-append name (save_source s ∷ xs) ys = published_of-append name xs ys
  published_of-append name (delete_source_file n ∷ xs) ys = published_of-append name xs ys
  published_of-append name (start_thread s ∷ xs) ys = published_of-append name xs ys
  published_of-append name (stop_and_join s ∷ xs) ys = published_of-append name xs ys
  published_of-append name (publish_discovery s ∷ xs) ys = published_of-append name xs ys
  published_of-append name (remove_discovery n ∷ xs) ys = published_of-append name xs ys

current_same : (o : Option String) (new : String) → is_current o new ≡ true → o ≡ some new
current_same none new e = cc
current_same (some old) new e = ap some (sym ((eq_iff new old).0 e))

changes_of_current :
    (o : Option String) (new : String) → is_current o new ≡ true → changes_of o (new ∷ []) ≡ []
changes_of_current none new e = cc
changes_of_current (some old) new e = rw e refl

changes_of_other :
    (o : Option String) (new : String)
    → is_current o new ≡ false
    → changes_of o (new ∷ []) ≡ new ∷ []
changes_of_other none new e = refl
changes_of_other (some old) new e = rw e refl

module _ (F : Type 0) where
  -- What the watchdog tells of a name, where `news` are the statuses that it saw of it.
  abbrev pub Tells :
      List (String × String)
      → List (String × String) × List (Effect F)
      → String
      → List String
      → Type 0
  Tells statuses after name news =
      (lookup name after.0 ≡ last_of (lookup name statuses) news)
      × (told_of name after.1 ≡ changes_of (lookup name statuses) news)
      × (published_of name after.1 ≡ but_connecting (changes_of (lookup name statuses) news))

  Tells-append :
      (statuses : List (String × String)) (first rest : List (String × String) × List (Effect F))
      (name : String) (xs ys : List String)
      → Tells statuses first name xs
      → Tells first.0 rest name ys
      → Tells statuses (rest.0, first.1 ++ rest.1) name (xs ++ ys)
  Tells-append statuses first rest name xs ys (kept, told, sent) (kept', told', sent') =
      let old = lookup name statuses in
      let split =
        changes_of-append old xs ys
        ∙ ap (λ (o : Option String). changes_of old xs ++ changes_of o ys) (sym kept) in
      (
        kept' ∙ ap (λ (o : Option String). last_of o ys) kept ∙ sym (last_of-append old xs ys),
        told_of-append name first.1 rest.1 ∙ rw (told, told') (sym split),
        published_of-append name first.1 rest.1
            ∙ rw (sent, sent', split) (sym (but_connecting-append (changes_of old xs) _)),
      )

  abbrev Turns : List (String × String) → String → String → String → List String → Type 0
  Turns statuses n new name news = Tells statuses (poll_one {F = F} statuses n new) name news

  turn_other :
      (statuses : List (String × String)) (n new name : String)
      → str_eq n name ≡ false
      → Turns statuses n new name []
  unfolding poll_one
  turn_other statuses n new name e = elim (Bool-cases (is_current (lookup n statuses) new)) [
    | inl same ↦ rw same (refl, refl, refl)
    | inr other ↦ elim (Bool-cases (str_eq new "connecting")) [
      | inl c ↦ rw (other, c) (lookup-insert n name new statuses ∙ rw e refl, rw e refl, refl)
      | inr c ↦ rw (other, c) (lookup-insert n name new statuses ∙ rw e refl, rw e refl, rw e refl)
    ]
  ]

  turn_own :
      (statuses : List (String × String)) (new name : String)
      → Turns statuses name new name (new ∷ [])
  unfolding poll_one
  turn_own statuses new name = elim (Bool-cases (is_current (lookup name statuses) new)) [
    | inl same ↦
        rw (same, changes_of_current (lookup name statuses) new same)
          (current_same (lookup name statuses) new same, refl, refl)
    | inr other ↦ elim (Bool-cases (str_eq new "connecting")) [
      | inl c ↦
          rw (other, c, changes_of_other (lookup name statuses) new other)
            (
              lookup-insert name name new statuses ∙ rw (eq_refl name) refl,
              rw (eq_refl name) refl,
              rw c refl,
            )
      | inr c ↦
          rw (other, c, changes_of_other (lookup name statuses) new other)
            (
              lookup-insert name name new statuses ∙ rw (eq_refl name) refl,
              rw (eq_refl name) refl,
              rw (c, eq_refl name) refl,
            )
    ]
  ]

module _ {F : Type 0} ⦃fl : Float F⦄ where
  -- A worker's status, from the time of its last chunk and the time now: a chunk that is less than
  -- 5 seconds old says that it is connected.
  abbrev pub condition : Option F → F → String
  condition none now = "connecting"
  condition (some last) now =
      if fl.lt (fl.sub now last) (fl.decimal 50 1) then "connected" else "disconnected"

  -- The statuses of the worker of this name at the looks at it.
  abbrev pub seen : String → List (String × Option F × F) → List String
  seen name [] = []
  seen name ((n, last, now) ∷ looks) =
      let rest = seen name looks in if str_eq n name then condition last now ∷ rest else rest

  status-condition : (last : Option F) (now : F) → status_of last now ≡ condition last now
  unfolding status_of
  status-condition none now = refl
  status-condition (some last) now = refl

  -- However often and in whatever order the watchdog looks at the workers, of each it tells the
  -- browser tabs its status at the first look and then at each look that finds another one than the
  -- look before, and nothing else (`old` is what was known before); MQTT's subscribers are told the
  -- same, but for "connecting"; and the status that is kept is the one of the last look. A status is
  -- "connecting" before the first chunk, "connected" where the last chunk is less than 5 seconds old,
  -- and "disconnected" otherwise.
  pub poll_lem :
      (statuses : List (String × String)) (looks : List (String × Option F × F)) (name : String)
      → (lookup name (poll statuses looks).0 ≡ last_of (lookup name statuses) (seen name looks))
        × (told_of name (poll statuses looks).1
            ≡ changes_of (lookup name statuses) (seen name looks))
        × (published_of name (poll statuses looks).1
            ≡ but_connecting (changes_of (lookup name statuses) (seen name looks)))
  unfolding poll
  poll_lem statuses [] name = (refl, refl, refl)
  poll_lem statuses ((n, last, now) ∷ looks) name =
      let first = poll_one {F = F} statuses n (status_of last now) in
      let rest = poll_lem first.0 looks name in
      elim (Bool-cases (str_eq n name)) [
        | inl e ↦
            let own : Turns F statuses n (status_of last now) name (condition last now ∷ []) =
              rw (← (eq_iff n name).0 e, status-condition last now)
                (turn_own F statuses (condition last now) n) in
            rw e (
              Tells-append F statuses first (poll first.0 looks) name (condition last now ∷ [])
                (seen name looks) own rest)
        | inr e ↦ rw e (
            Tells-append F statuses first (poll first.0 looks) name [] (seen name looks)
              (turn_other F statuses n (status_of last now) name e) rest)
      ]
