-- ===== src/Providers/Playback/Terminal.antt =====
-- `checked_terminal` of create-playback-provider.py: the player ended by itself.
use robotics_runtime_infra.Base.{
  ℕ, String, Bool, true, false, not, ◌&&◌, ◌||◌, Option, none, some, List, [], ◌∷◌, leb, ◌==◌,
  str_eq, if◌then◌else◌,
}
use robotics_runtime_infra.Base.Result.{Result, ok, err, raise_if, or_raise, ◌>>=◌, ◌>>◌}
use robotics_runtime_infra.Base.Text.{is_sha256}
use robotics_runtime_infra.Base.Value.{
  pos, negsuc, Value, str, arr, bool, null, Items, no_items, item, Fields, get, as_int, as_str,
  as_obj, is_text,
}
use robotics_runtime_infra.Providers.Playback.{
  Bytes, Run, Error, unreadable, not_json, unsupported_terminal, not_one_container, no_identifier,
  looping, wrong_player, not_terminated, no_deadline, wrong_wait, no_command, is_zero, at,
  load_mapping,
}

abbrev pub terminal_fact_files : List String
terminal_fact_files =
    "player-terminal.json" ∷ "player-before-wait.json" ∷ "player-after-wait.json"
    ∷ "player-wait.stdout" ∷ "player-wait.stderr" ∷ "logs/playback-player.log" ∷ []

-- `value is False`
abbrev pub is_false : Value → Bool
is_false (bool b) = not b
is_false _ = false

-- The mapping in a list of one.
unfoldable pub only_row : Value → Option Fields
only_row (arr (item v no_items)) = as_obj v
only_row _ = none

-- `value == [text, …]`
abbrev pub is_texts : Value → List String → Bool
is_texts (arr no_items) [] = true
is_texts (arr (item v vs)) (t ∷ ts) = is_text v t && is_texts (arr vs) ts
is_texts _ _ = false

abbrev any_text : String → Items → Bool
any_text t no_items = false
any_text t (item v vs) = is_text v t || any_text t vs

-- `deadline`: an integer from 1 to 300.
unfoldable pub deadline_of : Value → Option ℕ
deadline_of v = elim (as_int v) [
  | none ↦ none
  | some n ↦ elim n [ pos m ↦ if leb 1 m && leb m 300 then some m else none | negsuc m ↦ none ]
]

-- `raw in (b"0", b"0\n")`
abbrev is_zero_line : Bytes → Bool
is_zero_line [] = false
is_zero_line (a ∷ []) = a == b'0'
is_zero_line (a ∷ b ∷ []) = a == b'0' && b == 10
is_zero_line (a ∷ b ∷ c ∷ bs) = false

module _ (run : Run) where
  -- `"--loop" in command`
  unfoldable pub loops : Value → Result Error Bool
  loops (arr xs) = ok (any_text "--loop" xs)
  loops (str s) = ok (run.contains "--loop" s)
  loops _ = err no_command

  unfoldable pub snapshot : String → Result Error Fields
  snapshot name = do
    raw ← or_raise (run.read name) unreadable
    rows ← or_raise (run.loads raw) not_json
    or_raise (only_row rows) not_one_container

  -- The identity and execution of the player in one snapshot.
  unfoldable pub is_player : Fields → String → String → String → Value → Bool
  is_player facts identifier image project command =
      let labels = at (get facts "Config") "Labels" in
      is_text (get facts "Id") identifier
      && is_text (get facts "Image") image
      && is_text (at labels "com.docker.compose.project") project
      && is_text (at labels "com.docker.compose.service") "playback"
      && run.equal (at (get facts "Config") "Cmd") command
      && is_zero (get facts "RestartCount")
      && is_false (at (get facts "State") "OOMKilled")

  -- The player's state after the wait.
  unfoldable pub has_exited : Fields → Bool
  has_exited after =
      is_text (at (get after "State") "Status") "exited"
      && is_false (at (get after "State") "Running")
      && is_false (at (get after "State") "Dead")
      && is_zero (at (get after "State") "ExitCode")

  -- What the wait has reported.
  unfoldable pub is_reported : Fields → Bytes → Bool
  is_reported receipt stdout =
      is_zero (get receipt "wait_client_exit_code")
      && is_zero (get receipt "player_logs_exit_code")
      && is_text (get receipt "reported_player_exit_code") "0"
      && is_false (get receipt "stop_requested_before_wait")
      && is_zero_line stdout

  unfoldable pub is_terminated : Fields → Fields → Fields → Bytes → Bool
  is_terminated before after receipt stdout =
      run.equal (get after "Config") (get before "Config")
      && has_exited after
      && is_reported receipt stdout

  -- The checks of the receipt with the two snapshots.
  unfoldable pub checked_player : Fields → Fields → Fields → Fields → Result Error (Unit {0})
  checked_player configuration receipt before after = do
    identifier ← or_raise (as_str (get receipt "container_id")) no_identifier
    raise_if (not (is_sha256 identifier)) no_identifier
    let command = get configuration "playback_command"
    is_looping ← loops command
    raise_if is_looping looping
    image ← or_raise (as_str (get configuration "expected_playback_image_id")) wrong_player
    project ← or_raise (as_str (get receipt "project")) wrong_player
    raise_if
        (not (
          is_player before identifier image project command
          && is_player after identifier image project command))
        wrong_player
    stdout ← or_raise (run.read "player-wait.stdout") unreadable
    raise_if (not (is_terminated before after receipt stdout)) not_terminated
    deadline ← or_raise (deadline_of (get receipt "deadline_seconds")) no_deadline
    raise_if
        (not (
          is_texts (get receipt "command") (
            "timeout"
            ∷ "--foreground"
            ∷ run.decimal deadline
            ∷ "docker"
            ∷ "wait"
            ∷ identifier
            ∷ [])))
        wrong_wait

  unfoldable pub checked_exit : Fields → Result Error (List String)
  checked_exit configuration = do
    receipt ← load_mapping run "player-terminal.json"
    before ← snapshot "player-before-wait.json"
    after ← snapshot "player-after-wait.json"
    checked_player configuration receipt before after
    ok terminal_fact_files

  -- `checked_terminal`
  unfoldable pub checked_terminal : Fields → Result Error (List String)
  checked_terminal configuration = elim (get configuration "terminal_observation") [
    | null ↦ ok []
    | str s ↦
        if str_eq s "native-player-exit"
        then checked_exit configuration
        else err unsupported_terminal
    | _ ↦ err unsupported_terminal
  ]
