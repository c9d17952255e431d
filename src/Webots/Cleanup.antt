-- ===== src/Webots/Cleanup.antt =====
-- `reap` of launcher.py, and the `finally` and the exit status of its `main`.
-- The operating system is outside: `Kernel` has an operation on worlds for each call. Times are
-- nanoseconds. The loop of `reap` is on fuel, and `none` stands for fuel that is gone.
pub mod Reaped
use robotics_runtime_infra.Base.{
  ℕ, zero, suc, ◌+◌, String, Bool, true, false, not, ◌&&◌, Option, none, some, List, [], ◌∷◌, ltb,
  ◌==◌, str_eq, if◌then◌else◌,
}
use robotics_runtime_infra.Base.Value.{ℤ, pos, negsuc}

pub data Signal : Type 0 where
  sigterm sigkill : Signal

pub record Kernel : Type 1 where
  pub World : Type 0
  -- `os.killpg(pgid, 0)`, and a signal: whether there is such a group.
  pub group_exists : ℕ → World → Bool × World
  pub killpg : ℕ → Signal → World → Bool × World
  pub monotonic : World → ℕ × World
  -- `process.poll()`, with the return code that the process has then.
  pub poll : ℕ → World → Option ℤ × World
  pub sleep : World → World

pub record Child : Type 0 where
  pub name : String
  pub pid : ℕ
  pub exit_code : Option ℤ
  pub signals : List Signal
  pub group_absent : Bool
  pub reaped : Bool

-- `time.monotonic() + 2`
abbrev pub grace_ns : ℕ
grace_ns = 2_000_000_000

-- `process.returncode is not None`
abbrev pub is_exited : Option ℤ → Bool
is_exited none = false
is_exited (some c) = true

module _ (kernel : Kernel) where
  -- The `while` of `reap`.
  unfoldable pub await_gone : (fuel deadline pid : ℕ) → kernel.World → Option kernel.World
  await_gone zero deadline pid w = none
  await_gone (suc fuel) deadline pid w =
      let there = kernel.group_exists pid w in
      let now = kernel.monotonic there.1 in
      let rest = await_gone fuel deadline pid (kernel.sleep (kernel.poll pid now.1).1) in
      if there.0 then (if ltb now.0 deadline then rest else some now.1) else some there.1

  -- The `for` of `reap`: the signals that were sent.
  unfoldable pub signal_group : ℕ → List Signal → kernel.World → Option (List Signal × kernel.World)
  signal_group pid [] w = some ([], w)
  signal_group pid (s ∷ ss) w =
      let there = kernel.group_exists pid w in
      let sent = kernel.killpg pid s there.1 in
      let now = kernel.monotonic sent.1 in
      if there.0
      then (if sent.0
          then elim (await_gone (suc grace_ns) (now.0 + grace_ns) pid now.1) [
            | none ↦ none
            | some w' ↦ elim (signal_group pid ss w') [
              | none ↦ none
              | some (signals, w'') ↦ some (s ∷ signals, w'')
            ]
          ]
          else some ([], sent.1))
      else some ([], there.1)

  -- `reap`
  unfoldable pub reap : String → ℕ → kernel.World → Option (Child × kernel.World)
  reap name pid w = elim (signal_group pid (sigterm ∷ sigkill ∷ []) w) [
    | none ↦ none
    | some (signals, w') ↦
        let code = kernel.poll pid w' in
        let there = kernel.group_exists pid code.1 in
        some (
          record {
            name = name;
            pid = pid;
            exit_code = code.0;
            signals = signals;
            group_absent = not there.0;
            reaped = is_exited code.0 && not there.0;
          },
          there.1,
        )
  ]

  -- The loop of `finally` over the processes, the last one first.
  unfoldable pub reap_all : List (String × ℕ) → kernel.World → Option (List Child × kernel.World)
  reap_all [] w = some ([], w)
  reap_all ((name, pid) ∷ processes) w = elim (reap name pid w) [
    | none ↦ none
    | some (child, w') ↦ elim (reap_all processes w') [
      | none ↦ none
      | some (children, w'') ↦ some (child ∷ children, w'')
    ]
  ]

  abbrev pub all_reaped : List Child → Bool
  all_reaped [] = true
  all_reaped (c ∷ cs) = c.reaped && all_reaped cs

  -- The status of the result and the exit status of `main`, from what the body has left.
  unfoldable pub finish :
      String → ℤ → List (String × ℕ) → kernel.World → Option (String × ℤ × List Child)
  finish status code processes w = elim (reap_all processes w) [
    | none ↦ none
    | some (children, w') ↦
        let final = if all_reaped children then status else "error" in
        some (final, (if str_eq final "completed" then code else pos 1), children)
  ]
