-- ===== src/Journal/Examples.antt =====
-- The theorems on sessions, histories and the walk to the root, at small inputs.
use kitdev_sandboxes.Base.{◌≡◌, refl, true, false, [], ◌∷◌, some, all}
use kitdev_sandboxes.Base.Errors.{err}
use kitdev_sandboxes.Base.Strings.{codes}
use kitdev_sandboxes.Base.Sort.{sort_by}
use kitdev_sandboxes.Checks.Patterns.{
  codes_eq, utf8_size, contains_secret, contains_pem, is_stable_id,
}
use kitdev_sandboxes.Planning.Checked.{decoded_twice}
use kitdev_sandboxes.Planning.Paths.{posix_parts}
use kitdev_sandboxes.Journal.Texts.{
  Codes, conflict, checked_hash, is_journal_hash, starts_with, safe_path_component,
}
use kitdev_sandboxes.Journal.Policy.{Tree, accepts, open_root, slash}
use kitdev_sandboxes.Journal.Record.{
  JournalState, JournalRecord, IsRecord, journal_record, resource_record, resources_eq,
  all_distinct, follows, ambiguous_target, state_of,
}
use kitdev_sandboxes.Journal.Store.{with_state}
use kitdev_sandboxes.Journal.Session.{JournalSession, load_call, create_call, run_call}
use kitdev_sandboxes.Journal.Shared.{run_call_closed, run_call_shared}
use kitdev_sandboxes.Journal.History.{validated-history}
use kitdev_sandboxes.Journal.Walk.{IsRootOwned, Walked, open_root-Walked}
use kitdev_sandboxes.Journal.Sample.{
  demo, demo_applying, demo_host, demo_policy, demo_directory, owned_directory,
}

abbrev closed_session : JournalSession
closed_session = record { exclusive = true; closed = true }

abbrev shared_session : JournalSession
shared_session = record { exclusive = false; closed = false }

run_call_closed_example :
    run_call demo_host closed_session (create_call demo) demo_directory
    ≡ (err (conflict "journal session is closed"), demo_directory)
run_call_closed_example =
    run_call_closed demo_host closed_session (create_call demo) demo_directory refl

run_call_shared_example :
    (run_call demo_host shared_session (load_call (codes "demo")) demo_directory).1 ≡ demo_directory
run_call_shared_example =
    run_call_shared demo_host shared_session (load_call (codes "demo")) demo_directory refl

abbrev demo_validated : JournalRecord
demo_validated = with_state (with_state demo_applying JournalState.applied) JournalState.validated

demo_validated-IsRecord : IsRecord demo_validated
unfolding journal_record resource_record checked_hash utf8_size decoded_twice contains_secret
    contains_pem is_stable_id is_journal_hash resources_eq sort_by all_distinct follows
    ambiguous_target starts_with
demo_validated-IsRecord = (refl, (refl, tt))

validated-history_example :
    demo_validated.transitions
    ≡ JournalState.planned ∷ JournalState.applying ∷ JournalState.applied ∷ JournalState.validated
      ∷ []
unfolding state_of
validated-history_example = validated-history demo_validated demo_validated-IsRecord refl

abbrev root_path : Codes
root_path = codes "/var/journal"

abbrev root_tree : Tree
root_tree parts = some owned_directory

open_root-Walked_example :
    IsRootOwned owned_directory
    × Walked root_tree slash owned_directory (posix_parts root_path) owned_directory
    × (accepts demo_policy owned_directory 2 true [] ≡ true)
    × (all safe_path_component (posix_parts root_path) ≡ true)
unfolding open_root posix_parts safe_path_component codes_eq
open_root-Walked_example =
    open_root-Walked demo_policy root_tree owned_directory 2 root_path owned_directory refl refl
