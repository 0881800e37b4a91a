-- ===== src/Controller/Watcher.antt =====
-- main.rs: `ConfigWatcher`, which rereads the configuration while the controller runs.
use melibea.Base.{
  ℕ, ◌-◌, ◌≡◌, refl, sym, ap, subst, ◌∙◌, inl, inr, true, false, String, List, [], ◌∷◌, Option,
  none, some, Result, ok, err, if◌then◌else◌, ◌=?◌, string_eq, option_eq, ltb, beq_refl, eq_of_beq,
  Bool-cases,
}
use melibea.Base.Text.{◌<>◌}
use melibea.Config.{Config, ConfigError, Platform, parse}

-- An instant is a number of nanoseconds.
pub record ConfigWatcher : Type 0 where
  pub path : String
  pub last_seen_source : String
  pub last_read_error : Option String
  pub last_poll : ℕ

-- What the text of a rejection is made from: the whole text, or the path and the error.
pub data Rejection : Type 0 where
  unreadable : String → Rejection
  invalid : String → ConfigError → Rejection

pub data ConfigPoll : Type 0 where
  unchanged : ConfigPoll
  reloaded : Config → ConfigPoll
  rejected : Rejection → ConfigPoll

-- `ConfigWatcher::new`
unfoldable pub new_watcher : String → String → ℕ → ConfigWatcher
new_watcher path source now = record {
  path = path;
  last_seen_source = source;
  last_read_error = none;
  last_poll = now;
}

abbrev pub config_poll_interval : ℕ
config_poll_interval = 1000000000

abbrev pub read_message : String → String → String
read_message path error = "cannot read configuration update from " <> path <> ": " <> error

-- The branch of `poll_now` on a failed read.
unfoldable pub poll_unreadable : ConfigWatcher → String → ConfigWatcher × ConfigPoll
poll_unreadable w error =
    let message = read_message w.path error in
    if w.last_read_error =? some message
    then (w, unchanged)
    else (record w { last_read_error = some message }, rejected (unreadable message))

-- What the two answers at one poll are: the time before it, the time that it keeps, and the file.
pub record Poll : Type 0 where
  pub checked : ℕ
  pub polled : ℕ
  pub file : Result String String

module _ (p : Platform) where
  unfoldable pub parsed_poll : String → Result ConfigError Config → ConfigPoll
  parsed_poll path (ok config) = reloaded config
  parsed_poll path (err error) = rejected (invalid path error)

  -- The branch of `poll_now` on a source that was read.
  unfoldable pub poll_source : ConfigWatcher → String → ConfigWatcher × ConfigPoll
  unfolding parsed_poll
  poll_source w source =
      if source =? w.last_seen_source then (record w { last_read_error = none }, unchanged) else (
        record w { last_read_error = none; last_seen_source = source },
        parsed_poll w.path (parse p source),
      )

  unfoldable pub poll_now : ConfigWatcher → Result String String → ConfigWatcher × ConfigPoll
  unfolding poll_unreadable poll_source
  poll_now w (err error) = poll_unreadable w error
  poll_now w (ok source) = poll_source w source

  unfoldable pub poll_if_due : ConfigWatcher → Poll → ConfigWatcher × ConfigPoll
  unfolding poll_now
  poll_if_due w poll =
      if ltb (poll.checked - w.last_poll) config_poll_interval
      then (w, unchanged)
      else poll_now (record w { last_poll = poll.polled }) poll.file

  unreadable-again :
      (w : ConfigWatcher) (error : String)
      → (w.last_read_error =? some (read_message w.path error)) ≡ true
      → poll_unreadable w error ≡ (w, unchanged)
  unfolding poll_unreadable
  unreadable-again w error same = rw same refl

  unreadable-new :
      (w : ConfigWatcher) (error : String)
      → (w.last_read_error =? some (read_message w.path error)) ≡ false
      → poll_unreadable w error ≡ (
        record w { last_read_error = some (read_message w.path error) },
        rejected (unreadable (read_message w.path error)),
      )
  unfolding poll_unreadable
  unreadable-new w error new = rw new refl

  source-again :
      (w : ConfigWatcher) (source : String)
      → (source =? w.last_seen_source) ≡ true
      → poll_source w source ≡ (record w { last_read_error = none }, unchanged)
  unfolding poll_source
  source-again w source same = rw same refl

  source-new :
      (w : ConfigWatcher) (source : String)
      → (source =? w.last_seen_source) ≡ false
      → poll_source w source ≡ (
        record w { last_read_error = none; last_seen_source = source },
        parsed_poll w.path (parse p source),
      )
  unfolding poll_source
  source-new w source new = rw new refl

  abbrev IsSilentAfter : Result String String → ConfigWatcher × ConfigPoll → Type 0
  IsSilentAfter file out = poll_now out.0 file ≡ (out.0, unchanged)

  -- As long as the file stays as it is, a second poll is silent: whether the file cannot be read, is
  -- rejected, is loaded or is unchanged, polling again finds nothing new and changes nothing.
  pub poll_now-again :
      (w : ConfigWatcher) (file : Result String String)
      → poll_now (poll_now w file).0 file ≡ ((poll_now w file).0, unchanged)
  unfolding poll_now
  poll_now-again w (err error) =
      elim (Bool-cases (w.last_read_error =? some (read_message w.path error))) [
        | inl same ↦
            subst (IsSilentAfter (err error)) (sym (unreadable-again w error same))
              (unreadable-again w error same)
        | inr new ↦ subst (IsSilentAfter (err error)) (sym (unreadable-new w error new)) (
            unreadable-again (record w { last_read_error = some (read_message w.path error) }) error
              (beq_refl (some (read_message w.path error))))
      ]
  poll_now-again w (ok source) = elim (Bool-cases (source =? w.last_seen_source)) [
    | inl same ↦
        subst (IsSilentAfter (ok source)) (sym (source-again w source same))
          (source-again (record w { last_read_error = none }) source same)
    | inr new ↦ subst (IsSilentAfter (ok source)) (sym (source-new w source new)) (
        source-again (record w { last_read_error = none; last_seen_source = source }) source
          (beq_refl source))
  ]

  -- The policy in force after a poll.
  abbrev pub adopt : Config → ConfigPoll → Config
  adopt config unchanged = config
  adopt config (reloaded next) = next
  adopt config (rejected reason) = config

  abbrev pub adopt_all : Config → ConfigWatcher → List (Result String String) → Config
  adopt_all config w [] = config
  adopt_all config w (file ∷ files) =
      adopt_all (adopt config (poll_now w file).1) (poll_now w file).0 files

  -- The reference: the last content of the file that could be read and parsed.
  abbrev pub good_or : Config → Result ConfigError Config → Config
  good_or config (ok next) = next
  good_or config (err error) = config

  abbrev pub last_good : Config → List (Result String String) → Config
  last_good config [] = config
  last_good config (err error ∷ files) = last_good config files
  last_good config (ok source ∷ files) = last_good (good_or config (parse p source)) files

  -- What was last seen is what is in force, if it parses at all.
  abbrev pub IsInForce : Config → String → Type 0
  IsInForce config source = good_or config (parse p source) ≡ config

  good_or-again :
      (config : Config) (r : Result ConfigError Config)
      → good_or (good_or config r) r ≡ good_or config r
  good_or-again config (ok next) = refl
  good_or-again config (err error) = refl

  adopt-parsed :
      (config : Config) (path : String) (r : Result ConfigError Config)
      → adopt config (parsed_poll path r) ≡ good_or config r
  unfolding parsed_poll
  adopt-parsed config path (ok next) = refl
  adopt-parsed config path (err error) = refl

  poll-error :
      (w : ConfigWatcher) (error : String) → poll_now w (err error) ≡ poll_unreadable w error
  unfolding poll_now
  poll-error w error = refl

  poll-read : (w : ConfigWatcher) (source : String) → poll_now w (ok source) ≡ poll_source w source
  unfolding poll_now
  poll-read w source = refl

  abbrev adopt_rest : Config → List (Result String String) → ConfigWatcher × ConfigPoll → Config
  adopt_rest config files out = adopt_all (adopt config out.1) out.0 files

  -- Whatever the file contains at each poll, and whether it can be read, the policy in force after any
  -- number of polls is that of the last content that could be read and parsed, if at the start the
  -- content last seen is that of the policy in force.
  pub adopt_all-last_good :
      (files : List (Result String String)) (config : Config) (w : ConfigWatcher)
      → IsInForce config w.last_seen_source
      → adopt_all config w files ≡ last_good config files
  adopt_all-last_good [] config w h = refl
  adopt_all-last_good (err error ∷ files) config w h =
      elim (Bool-cases (w.last_read_error =? some (read_message w.path error))) [
        | inl same ↦
            ap (adopt_rest config files) (poll-error w error ∙ unreadable-again w error same)
            ∙ adopt_all-last_good files config w h
        | inr new ↦
            ap (adopt_rest config files) (poll-error w error ∙ unreadable-new w error new)
            ∙ adopt_all-last_good files config
                (record w { last_read_error = some (read_message w.path error) }) h
      ]
  adopt_all-last_good (ok source ∷ files) config w h =
      elim (Bool-cases (source =? w.last_seen_source)) [
        | inl same ↦
            let known : good_or config (parse p source) ≡ config =
              ap (λ s. good_or config (parse p s)) (eq_of_beq source w.last_seen_source same) ∙ h in
            ap (adopt_rest config files) (poll-read w source ∙ source-again w source same)
            ∙ adopt_all-last_good files config (record w { last_read_error = none }) h
            ∙ ap (λ c. last_good c files) (sym known)
        | inr new ↦
            let next = good_or config (parse p source) in
            let w' = record w { last_read_error = none; last_seen_source = source } in
            ap (adopt_rest config files) (poll-read w source ∙ source-new w source new)
            ∙ ap (λ c. adopt_all c w' files) (adopt-parsed config w.path (parse p source))
            ∙ adopt_all-last_good files next w' (good_or-again config (parse p source))
      ]
