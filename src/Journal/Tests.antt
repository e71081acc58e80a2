-- ===== src/Journal/Tests.antt =====
-- The theorems at a small journal, and tests of the definitions.
use kitdev_sandboxes.Base.{◌≡◌, refl, true, [], ◌∷◌, none, arith, ◌⊎◌}
use kitdev_sandboxes.Base.Errors.{ok}
use kitdev_sandboxes.Base.Strings.{codes}
use kitdev_sandboxes.Checks.Patterns.{
  codes_eq, utf8_size, contains_secret, contains_pem, is_stable_id,
}
use kitdev_sandboxes.Base.Sort.{sort_by}
use kitdev_sandboxes.Planning.Checked.{decoded_twice}
use kitdev_sandboxes.Journal.Texts.{
  checked_hash, is_journal_hash, starts_with, safe_path_component, Codes,
}
use kitdev_sandboxes.Journal.Record.{
  JournalState, allowed, state_of, IsRecord, journal_record, resource_record, resources_eq,
  all_distinct, follows, ambiguous_target,
}
use kitdev_sandboxes.Journal.Codec.{canonical, encode, decode}
use kitdev_sandboxes.Journal.Roundtrip.{decode-encode, encode-decode}
use kitdev_sandboxes.Journal.Policy.{accepts}
use kitdev_sandboxes.Journal.Directory.{Directory, find_entry, link_count, create_file}
use kitdev_sandboxes.Journal.Files.{take_bytes, candidates, directory_entries, keep_if, is_token}
use kitdev_sandboxes.Journal.Store.{
  new_temp, write_temp, allocate_temp, temp_name, transition_at, create_at, load_at,
}
use kitdev_sandboxes.Journal.Holds.{Holds, Holds-load_at}
use kitdev_sandboxes.Journal.Transition.{
  Transitioned, transition_at-Transitioned, DuringReplace, load_at-DuringReplace,
}
use kitdev_sandboxes.Journal.Progress.{transition_at-progress}
use kitdev_sandboxes.Journal.Create.{linked}
use kitdev_sandboxes.Journal.Crash.{
  CanCreate, create_at-progress, DuringCreate, load_at-DuringCreate,
}
use kitdev_sandboxes.Journal.Temps.{Parses, node_of}
use kitdev_sandboxes.Journal.Sample.{
  demo, demo_applying, demo_loads, demo_host, demo_directory, demo_name, empty_directory,
}

demo-IsRecord : IsRecord demo
unfolding journal_record resource_record checked_hash utf8_size decoded_twice contains_secret
    contains_pem is_stable_id is_journal_hash resources_eq sort_by all_distinct follows
    ambiguous_target starts_with
demo-IsRecord = (refl, (refl, tt))

demo_applying-IsRecord : IsRecord demo_applying
unfolding journal_record resource_record checked_hash utf8_size decoded_twice contains_secret
    contains_pem is_stable_id is_journal_hash resources_eq sort_by all_distinct follows
    ambiguous_target starts_with
demo_applying-IsRecord = (refl, (refl, tt))

demo-encode : encode demo ≡ ok (canonical demo)
unfolding encode canonical
demo-encode = refl

demo-Parses : Parses demo_host demo
unfolding demo_loads codes_eq canonical
demo-Parses = refl

demo_applying-Parses : Parses demo_host demo_applying
unfolding demo_loads codes_eq canonical
demo_applying-Parses = refl

decode-demo : decode demo_loads (canonical demo) ≡ ok demo
decode-demo = decode-encode demo_loads demo (canonical demo) demo-IsRecord demo-encode demo-Parses

decode-encode_example : decode demo_loads (canonical demo) ≡ ok demo
decode-encode_example =
    decode-encode demo_loads demo (canonical demo) demo-IsRecord demo-encode demo-Parses

encode-decode_example : IsRecord demo × (encode demo ≡ ok (canonical demo))
encode-decode_example = encode-decode demo_loads (canonical demo) demo decode-demo

demo-Holds : Holds demo_host demo_name demo demo_directory
unfolding find_entry link_count accepts take_bytes canonical codes_eq
demo-Holds = record {
  inode = 0;
  found = refl;
  single = refl;
  trusted = refl;
  written = decode-demo;
}

demo_new_temp : new_temp demo_host demo_name demo_applying demo_directory ≡ (
  ok (temp_name demo_name (demo_host.token 0)),
  create_file
      (temp_name demo_name (demo_host.token 0))
      (node_of demo_host demo_applying)
      demo_directory,
)
unfolding new_temp write_temp allocate_temp find_entry encode canonical accepts codes_eq
demo_new_temp = refl

demo_clean : candidates demo_name demo_directory ≡ ok []
unfolding candidates directory_entries keep_if starts_with sort_by safe_path_component
demo_clean = refl

transition_at-progress_example :
    (d' : Directory) × (transition_at demo_host
        (codes "demo")
        demo.plan_id
        demo.plan_hash
        demo.resources
        JournalState.applying
        demo_directory
      ≡ (ok demo_applying, d'))
    × Holds demo_host demo_name demo_applying d'
unfolding allowed state_of
transition_at-progress_example =
    transition_at-progress demo_host demo JournalState.applying _ demo_directory _ demo-Holds
      demo_clean demo_new_temp demo_applying-Parses refl (omega arith)

demo_transition :
    (d' : Directory) × (transition_at demo_host
        (codes "demo")
        demo.plan_id
        demo.plan_hash
        demo.resources
        JournalState.applying
        demo_directory
      ≡ (ok demo_applying, d'))
    × Holds demo_host demo_name demo_applying d'
unfolding allowed state_of
demo_transition =
    transition_at-progress demo_host demo JournalState.applying _ demo_directory _ demo-Holds
      demo_clean demo_new_temp demo_applying-Parses refl (omega arith)

transition_at-Transitioned_example :
    Transitioned demo_host demo_name JournalState.applying demo demo_applying demo_transition.0
transition_at-Transitioned_example =
    transition_at-Transitioned demo_host (codes "demo") demo.plan_id demo.plan_hash demo.resources
      JournalState.applying demo_directory demo_directory demo_transition.0 demo demo_applying
      (Holds-load_at demo_host demo_name demo demo_directory true demo-Holds) demo_applying-Parses
      demo_transition.1

abbrev demo_temp : Codes
demo_temp = temp_name demo_name (demo_host.token 0)

-- The directory when five bytes of the new record have been written.
abbrev demo_cut : Directory
demo_cut =
    create_file demo_temp
      (record { metadata = demo_host.created; content = take_bytes 5 (canonical demo_applying) })
      demo_directory

load_at-DuringReplace_example :
    (load_at demo_host true demo_name demo_cut ≡ (ok demo, demo_cut))
    ⊎ (load_at demo_host true demo_name demo_cut ≡ (ok demo_applying, demo_cut))
load_at-DuringReplace_example =
    load_at-DuringReplace demo_host demo_name demo demo_applying demo_temp demo_directory _ demo_cut
      true demo-Holds demo_applying-IsRecord demo_applying-Parses demo_new_temp
      (DuringReplace.writing 5)

demo-CanCreate :
    CanCreate demo_host demo_name demo demo_temp empty_directory
      (create_file demo_temp (node_of demo_host demo) empty_directory)
      (demo_name ∷ demo_temp ∷ [])
unfolding find_entry accepts candidates directory_entries keep_if starts_with sort_by
    safe_path_component new_temp write_temp allocate_temp encode canonical codes_eq is_token
demo-CanCreate = record {
  accepted = demo-IsRecord;
  parses = demo-Parses;
  tokens = λ n. refl;
  double = refl;
  free = refl;
  clean = refl;
  made = refl;
  listed = refl;
}

create_at-progress_example :
    (d' : Directory) × (create_at demo_host demo empty_directory ≡ (ok demo, d'))
    × Holds demo_host demo_name demo d'
create_at-progress_example =
    create_at-progress demo_host demo demo_temp empty_directory _ _ refl demo-CanCreate

-- The directory of a creation that is cut off when both names lead to the file.
abbrev demo_linked : Directory
demo_linked = linked demo_host demo_name demo demo_temp empty_directory

load_at-DuringCreate_example :
    (find_entry demo_name demo_linked.entries ≡ none)
    ⊎ ((load_at demo_host true demo_name demo_linked).0 ≡ ok demo)
load_at-DuringCreate_example =
    load_at-DuringCreate demo_host demo_name demo demo_temp empty_directory _ _ demo_linked
      demo-CanCreate DuringCreate.linking
