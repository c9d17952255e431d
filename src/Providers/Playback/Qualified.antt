-- ===== src/Providers/Playback/Qualified.antt =====
-- What a passed result of the playback probe rests on.
use robotics_runtime_infra.Base.{ℕ, ◌≡◌, ◌⊎◌, String, true, false, some, List, [], ◌∷◌, ◌++◌}
use robotics_runtime_infra.Base.Result.{ok}
use robotics_runtime_infra.Base.Text.{distinct}
use robotics_runtime_infra.Base.Value.{
  pos, Value, str, int, arr, bool, null, Items, Fields, get, as_str,
}
use robotics_runtime_infra.Providers.Playback.{
  Bytes, Opened, Run, at, get_or, load_mapping, checked_probe_message,
}
use robotics_runtime_infra.Providers.Playback.Terminal.{deadline_of, snapshot}
use robotics_runtime_infra.Providers.Playback.Sources.{
  Reference, Source, sources_of, paths_of, checked_metadata,
}
use robotics_runtime_infra.Providers.Playback.Outcome.{Subject, result_of}

module _ (run : Run) where
  -- A file that did not change while it was hashed, with the digest and size that were recorded.
  pub record IsRetained (s : Source) (r : Reference) : Type 0 where
    pub opened : Opened
    pub its_file : run.open_file s.path ≡ some opened
    pub unchanged : opened.unchanged ≡ true
    pub same_digest : s.sha256 ≡ str opened.sha256
    pub same_size : s.size_bytes ≡ int (pos opened.size)
    pub its_digest : r.sha256 ≡ opened.sha256
    pub its_uri : r.uri ≡ run.as_uri s.path

  abbrev pub AllRetained : List Source → List Reference → Type 0
  AllRetained [] [] = Unit
  AllRetained [] (r ∷ rs) = ⊥
  AllRetained (s ∷ ss) [] = ⊥
  AllRetained (s ∷ ss) (r ∷ rs) = IsRetained s r × AllRetained ss rs

  -- The sources of a configuration: they have different paths, each is retained, and their MCAP
  -- files are those of the bag's metadata.
  pub record HasSources (configuration : Fields) (evidence : List Reference) : Type 0 where
    pub items : Items
    pub its_items : get configuration "sources" ≡ arr items
    pub sources : List Source
    pub its_sources : sources_of items ≡ some sources
    pub no_duplicates : distinct (paths_of sources) ≡ true
    pub all_retained : AllRetained sources evidence
    pub metadata : checked_metadata run configuration sources ≡ ok tt

  -- The gate and the probe ended well, and the log that is retained is the one that was observed.
  pub record IsObserved (configuration : Fields) : Type 0 where
    pub observation : Fields
    pub its_observation : load_mapping run "observation.json" ≡ ok observation
    pub gate : get observation "gate_exit_code" ≡ int (pos 0)
    pub probe : get observation "probe_exit_code" ≡ int (pos 0)
    pub log : Bytes
    pub its_log : run.read "logs/playback-probe.log" ≡ some log
    pub log_digest : get observation "probe_log_sha256" ≡ str (run.sha256 log)
    pub message_type : String
    pub its_type :
        as_str (get_or configuration "message_type" "std_msgs/msg/Int32") ≡ some message_type
    pub message : checked_probe_message run log message_type ≡ ok tt

  -- The player that is found exited with status zero, and not stopped, within a wait of at most
  -- 300 seconds.
  pub record HasEnded : Type 0 where
    pub receipt : Fields
    pub its_receipt : load_mapping run "player-terminal.json" ≡ ok receipt
    pub after : Fields
    pub its_after : snapshot run "player-after-wait.json" ≡ ok after
    pub exit_code : at (get after "State") "ExitCode" ≡ int (pos 0)
    pub not_running : at (get after "State") "Running" ≡ bool false
    pub not_stopped : get receipt "stop_requested_before_wait" ≡ bool false
    pub deadline : ℕ
    pub its_deadline : deadline_of (get receipt "deadline_seconds") ≡ some deadline

  -- What a result rests on.
  pub record IsQualified (subject : Subject) (result : Fields) : Type 0 where
    pub profile_raw : Bytes
    pub configuration_raw : Bytes
    pub its_bytes : run.read "configuration/provider.json" ≡ some configuration_raw
    pub configuration : Fields
    pub its_configuration : run.loads_mapping configuration_raw ≡ some configuration
    pub observed : IsObserved configuration
    pub ended : (get configuration "terminal_observation" ≡ null) ⊎ HasEnded
    pub evidence : List Reference
    pub sources : HasSources configuration evidence
    pub facts : List Reference
    pub its_result :
        result
        ≡ result_of run subject profile_raw configuration_raw configuration (evidence ++ facts)
