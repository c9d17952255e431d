-- ===== src/Webots/Cleanup/Reaped.antt =====
-- The cleanup ends, and an exit status of zero is given only when no process group is left.
use robotics_runtime_infra.Base.{
  ℕ, zero, suc, ◌+◌, ◌<◌, ◌≤◌, ◌≡◌, ◌≢◌, String, true, false, none, some, List, [], ◌∷◌, arith,
  str_eq, str_eq_iff, Bool-cases, Option-cases, inl, inr, sym, subst, ap, refl, ◌∙◌, not, ◌&&◌,
}
use robotics_runtime_infra.Base.Value.{ℤ, pos}
use robotics_runtime_infra.Webots.Cleanup.{
  Signal, sigterm, sigkill, Kernel, Child, grace_ns, await_gone, signal_group, reap, reap_all,
  all_reaped, is_exited, finish,
}

module _ (kernel : Kernel) where
  -- A clock that no call turns back, and that a sleep moves on.
  pub record Clock : Type 0 where
    pub now : kernel.World → ℕ
    pub read :
        (w : kernel.World)
        → (now w ≤ (kernel.monotonic w).0) × ((kernel.monotonic w).0 ≤ now (kernel.monotonic w).1)
    pub asked : (pid : ℕ) (w : kernel.World) → now w ≤ now (kernel.group_exists pid w).1
    pub polled : (pid : ℕ) (w : kernel.World) → now w ≤ now (kernel.poll pid w).1
    pub slept : (w : kernel.World) → now w < now (kernel.sleep w)

  module _ (clock : Clock) where
    await_gone-some :
        (fuel deadline pid : ℕ) (w : kernel.World)
        → deadline ≤ fuel + clock.now w
        → await_gone kernel (suc fuel) deadline pid w ≢ none
    unfolding await_gone
    await_gone-some zero deadline pid w enough h =
        let asked = clock.asked pid w in
        let (low, high) = clock.read (kernel.group_exists pid w).1 in ground arith
    await_gone-some (suc fuel) deadline pid w enough h =
        let asked = clock.asked pid w in
        let there = (kernel.group_exists pid w).1 in
        let (low, high) = clock.read there in
        let polled = clock.polled pid (kernel.monotonic there).1 in
        let next = (kernel.poll pid (kernel.monotonic there).1).1 in
        let slept = clock.slept next in
        let rest = await_gone-some fuel deadline pid (kernel.sleep next) (omega arith) in
        ground arith

    signal_group-some :
        (pid : ℕ) (signals : List Signal) (w : kernel.World)
        → signal_group kernel pid signals w ≢ none
    unfolding signal_group
    signal_group-some pid [] w h = ground arith
    signal_group-some pid (s ∷ ss) w h =
        let sent = (kernel.killpg pid s (kernel.group_exists pid w).1).1 in
        let now = kernel.monotonic sent in
        let (low, high) = clock.read sent in
        elim (Option-cases (await_gone kernel (suc grace_ns) (now.0 + grace_ns) pid now.1)) [
          | inl e ↦ await_gone-some grace_ns (now.0 + grace_ns) pid now.1 (omega arith) e
          | inr (w', e) ↦ elim (Option-cases (signal_group kernel pid ss w')) [
            | inl e' ↦ signal_group-some pid ss w' e'
            | inr (r, e') ↦ ground arith
          ]
        ]

    reap_all-some :
        (processes : List (String × ℕ)) (w : kernel.World) → reap_all kernel processes w ≢ none
    unfolding reap_all reap
    reap_all-some [] w h = ground arith
    reap_all-some ((name, pid) ∷ processes) w h =
        elim (Option-cases (signal_group kernel pid (sigterm ∷ sigkill ∷ []) w)) [
          | inl e ↦ signal_group-some pid (sigterm ∷ sigkill ∷ []) w e
          | inr ((signals, w'), e) ↦
              let next = (kernel.group_exists pid (kernel.poll pid w').1).1 in
              elim (Option-cases (reap_all kernel processes next)) [
                | inl e' ↦ reap_all-some processes next e'
                | inr (r, e') ↦ ground arith
              ]
        ]

    -- On a clock that no call turns back and that a sleep moves on, the cleanup of any processes
    -- ends, whether or not their groups go away: the two seconds of each signal are enough fuel.
    pub finish_ends :
        (status : String) (code : ℤ) (processes : List (String × ℕ)) (w : kernel.World)
        → finish kernel status code processes w ≢ none
    unfolding finish
    finish_ends status code processes w h = elim (Option-cases (reap_all kernel processes w)) [
      | inl e ↦ reap_all-some processes w e
      | inr (r, e) ↦ ground arith
    ]

  -- The cleanup of a process from the world `before`: after the signals that the child tells, `poll`
  -- gave the exit code that the child tells, and then its group was not found; this left `after`.
  pub record IsGone (name : String) (pid : ℕ) (before : kernel.World) (child : Child)
      (after : kernel.World) : Type 0 where
    pub its_name : child.name ≡ name
    pub its_pid : child.pid ≡ pid
    pub signalled : kernel.World
    pub its_signals :
        signal_group kernel pid (sigterm ∷ sigkill ∷ []) before ≡ some (child.signals, signalled)
    pub code : ℤ
    pub polled : (kernel.poll pid signalled).0 ≡ some code
    pub exited : child.exit_code ≡ some code
    pub no_group : (kernel.group_exists pid (kernel.poll pid signalled).1).0 ≡ false
    pub its_world : after ≡ (kernel.group_exists pid (kernel.poll pid signalled).1).1

  -- One process after the other, each from the world that the one before has left.
  abbrev pub AllGone : List (String × ℕ) → kernel.World → List Child → Type 0
  AllGone [] w [] = Unit
  AllGone [] w (c ∷ cs) = ⊥
  AllGone (p ∷ ps) w [] = ⊥
  AllGone ((name, pid) ∷ ps) w (c ∷ cs) =
      (after : kernel.World) × IsGone name pid w c after × AllGone ps after cs

  reap-IsGone :
      (name : String) (pid : ℕ) (w : kernel.World) {c : Child} {w' : kernel.World}
      → reap kernel name pid w ≡ some (c, w')
      → c.reaped ≡ true
      → IsGone name pid w c w'
  unfolding reap
  reap-IsGone name pid w {c = c} {w' = w'} h r =
      elim (Option-cases (signal_group kernel pid (sigterm ∷ sigkill ∷ []) w)) [
        | inl e ↦ absurd (ground arith)
        | inr ((signals, w1), e) ↦ elim (Option-cases (kernel.poll pid w1).0) [
          | inl e' ↦ absurd (ground arith)
          | inr (code, e') ↦
              let polled = kernel.poll pid w1 in
              let there = kernel.group_exists pid polled.1 in
              let told : record {
                name = name;
                pid = pid;
                exit_code = polled.0;
                signals = signals;
                group_absent = not there.0;
                reaped = is_exited polled.0 && not there.0;
              }
                  ≡ c =
                ground arith in
              let left : there.1 ≡ w' = ground arith in
              let done : (is_exited polled.0 && not there.0) ≡ true = ap (λ d. d.reaped) told ∙ r in
              subst (λ d. IsGone name pid w d w') told
                (record {
                  its_name = refl;
                  its_pid = refl;
                  signalled = w1;
                  its_signals = e;
                  code = code;
                  polled = e';
                  exited = e';
                  no_group = ground arith;
                  its_world = sym left;
                })
        ]
      ]

  reap_all-AllGone :
      (processes : List (String × ℕ)) (w : kernel.World) {children : List Child} {w' : kernel.World}
      → reap_all kernel processes w ≡ some (children, w')
      → all_reaped kernel children ≡ true
      → AllGone processes w children
  unfolding reap_all
  reap_all-AllGone [] w {children = []} h r = tt
  reap_all-AllGone [] w {children = c ∷ cs} h r = absurd (ground arith)
  reap_all-AllGone ((name, pid) ∷ processes) w {children = children} h r =
      elim (Option-cases (reap kernel name pid w)) [
        | inl e ↦ absurd (ground arith)
        | inr ((c, w1), e) ↦ elim (Option-cases (reap_all kernel processes w1)) [
          | inl e' ↦ absurd (ground arith)
          | inr ((cs, w2), e') ↦
              let whole : c ∷ cs ≡ children = ground arith in
              let all = subst (λ l. all_reaped kernel l ≡ true) (sym whole) r in
              let gone = reap-IsGone name pid w e (ground arith) in
              rw (← whole) (w1, gone, reap_all-AllGone processes w1 e' (ground arith))
        ]
      ]

  -- An exit status of zero: the body's own status was "completed" with code zero, and for every
  -- process that was started, one after the other, `poll` gave its exit code after the signals, and
  -- its group was not found after that.
  pub finish-AllGone :
      (status : String) (code : ℤ) (processes : List (String × ℕ)) (w : kernel.World)
      (final : String) (children : List Child)
      → finish kernel status code processes w ≡ some (final, pos 0, children)
      → (status ≡ "completed") × (code ≡ pos 0) × AllGone processes w children
  unfolding finish
  finish-AllGone status code processes w final children h =
      elim (Option-cases (reap_all kernel processes w)) [
        | inl e ↦ absurd (ground arith)
        | inr ((cs, w'), e) ↦ elim (Bool-cases (all_reaped kernel cs)) [
          | inr f ↦ let failed = rw (finish, e, f) at h in absurd (ground arith)
          | inl t ↦ elim (Bool-cases (str_eq status "completed")) [
            | inr f ↦ absurd (ground arith)
            | inl q ↦
                let same : cs ≡ children = ground arith in
                (
                  (str_eq_iff status "completed").0 q,
                  ground arith,
                  rw (← same) (reap_all-AllGone processes w e t),
                )
          ]
        ]
      ]
