-- ===== src/Webots/Tests.antt =====
-- A kernel with two groups: one goes at SIGTERM, the other was gone before.
use robotics_runtime_infra.Base.{
  ℕ, ◌+◌, ◌≡◌, ◌≢◌, ◌==◌, String, Bool, true, false, none, some, List, [], ◌∷◌, refl, arith,
  if◌then◌else◌,
}
use robotics_runtime_infra.Base.Value.{pos}
use robotics_runtime_infra.Webots.Cleanup.{
  sigterm, Kernel, Child, await_gone, signal_group, reap, reap_all, finish,
}
use robotics_runtime_infra.Webots.Cleanup.Reaped.{Clock, AllGone, finish_ends, finish-AllGone}

-- The time, and whether the group 7 is there.
abbrev System : Type 0
System = ℕ × Bool

abbrev kernel : Kernel
kernel = record {
  World = System;
  group_exists = λ pid w. (if pid == 7 then w.1 else false, w);
  killpg = λ pid s w. (if pid == 7 then w.1 else false, (w.0, false));
  monotonic = λ w. (w.0, w);
  poll = λ pid w. (some (pos 0), w);
  sleep = λ w. (w.0 + 20_000_000, w.1);
}

clock : Clock kernel
clock = record {
  now = λ w. w.0;
  read = λ w. (ground arith, ground arith);
  asked = λ pid w. ground arith;
  polled = λ pid w. ground arith;
  slept = λ w. ground arith;
}

abbrev children : List Child
children =
    record {
      name = "webots";
      pid = 7;
      exit_code = some (pos 0);
      signals = sigterm ∷ [];
      group_absent = true;
      reaped = true;
    }
    ∷ record {
      name = "xvfb";
      pid = 8;
      exit_code = some (pos 0);
      signals = [];
      group_absent = true;
      reaped = true;
    }
    ∷ []

abbrev status : String
status = "completed"

abbrev processes : List (String × ℕ)
processes = ("webots", 7) ∷ ("xvfb", 8) ∷ []

finished : finish kernel status (pos 0) processes (5, true) ≡ some ("completed", pos 0, children)
unfolding finish reap_all reap signal_group await_gone
finished = refl

finish_ends_example : finish kernel status (pos 0) processes (5, true) ≢ none
finish_ends_example = finish_ends kernel clock "completed" (pos 0) processes (5, true)

finish-AllGone_example :
    (status ≡ "completed") × (pos 0 ≡ pos 0) × AllGone kernel processes (5, true) children
finish-AllGone_example =
    finish-AllGone kernel status (pos 0) processes (5, true) "completed" children finished
