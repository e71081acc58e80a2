-- ===== src/PrivateEnv/Written.antt =====
-- What a run of the script may leave at the file's path.
use kitdev_sandboxes.Base.{
  ◌≡◌, ◌⊎◌, refl, subst, inl, inr, Bool, true, false, List, Option, none, some, ◌==◌, length,
  Bool-cases, String,
}
use kitdev_sandboxes.Base.Errors.{Result, ok, err}
use kitdev_sandboxes.PrivateEnv.Document.{
  Codes, Values, Checked, Networks, image_keys, network_keys, validate,
}
use kitdev_sandboxes.PrivateEnv.Operations.{
  EnvFile, absent, linked_away, present, EnvHost, written, publish_env, prepare, write_document,
  after_write, Printed, report, update_values, update_read, update, bootstrap_read, put_all,
  same_values, read_document, Tokens, bootstrap, fresh_values, EnvCommand, run_command,
  bootstrap_command, verify_command, get_network, get_images, set_images, set_network,
}

-- The file as it was, or the lines of values that `validate` accepts.
pub data Kept (networks : Networks) (before : EnvFile) : EnvFile → Type 0 where
  as_before : Kept networks before before
  rewritten : (d : Values) → validate networks d ≡ ok tt → Kept networks before (written d)

pub result_cases :
    {E A : Type 0} (r : Result E A) → ((e : E) × (r ≡ err e)) ⊎ ((a : A) × (r ≡ ok a))
result_cases (err e) = inl (e, refl)
result_cases (ok a) = inr (a, refl)

pub publish_env-eq-ok :
    (replace : Bool) (new old : EnvFile) {f : EnvFile}
    → publish_env replace new old ≡ ok f
    → new ≡ f
unfolding publish_env
publish_env-eq-ok true new old e = cc
publish_env-eq-ok false new absent e = cc
publish_env-eq-ok false new linked_away e = cc
publish_env-eq-ok false new (present m links raw) e = cc

write_document-Kept :
    (networks : Networks) (d : Values) (replace : Bool) (h : EnvHost)
    → Kept networks h.file (write_document networks d replace h).1.file
unfolding write_document
write_document-Kept networks d replace h = elim (result_cases (validate networks d)) [
  | inl (e, bad) ↦ rw (bad, write_document) Kept.as_before
  | inr (_, good) ↦ elim (result_cases (prepare d h)) [
    | inl (e, bad) ↦ rw (good, bad, write_document) Kept.as_before
    | inr (_, ready) ↦ elim (result_cases (publish_env replace (written d) h.file)) [
      | inl (e, taken) ↦ rw (good, ready, taken, write_document) Kept.as_before
      | inr (f, published) ↦
          rw (good, ready, published, write_document)
            (subst (Kept networks h.file) (publish_env-eq-ok replace (written d) h.file published)
              (Kept.rewritten d good))
    ]
  ]
]

after_write-file :
    (networks : Networks) (printed : Printed) (o : Checked (Unit {0}) × EnvHost)
    → (after_write networks printed o).1 ≡ o.1
after_write-file networks printed (err e, h) = refl
after_write-file networks printed (ok _, h) = refl

update_values-Kept :
    (networks : Networks) (keys : List String) (arguments : List Codes) (operation : String)
    (d : Values) (h : EnvHost)
    → Kept networks h.file (update_values networks keys arguments operation d h).1.file
unfolding update_values
update_values-Kept networks keys arguments operation d h =
    elim (Bool-cases (same_values (put_all keys arguments d) d)) [
      | inl same ↦ rw (same, update_values) Kept.as_before
      | inr other ↦
          rw (other, update_values)
            (rw
              (after_write-file networks (report operation "updated")
                (write_document networks (put_all keys arguments d) true h))
              (write_document-Kept networks (put_all keys arguments d) true h))
    ]

update_read-Kept :
    (networks : Networks) (keys : List String) (arguments : List Codes) (operation : String)
    (h : EnvHost) (o : Checked (Option Values))
    → Kept networks h.file (update_read networks keys arguments operation h o).1.file
update_read-Kept networks keys arguments operation h (err e) = Kept.as_before
update_read-Kept networks keys arguments operation h (ok none) = Kept.as_before
update_read-Kept networks keys arguments operation h (ok (some d)) =
    update_values-Kept networks keys arguments operation d h

update-Kept :
    (networks : Networks) (keys : List String) (arguments : List Codes) (operation : String)
    (h : EnvHost)
    → Kept networks h.file (update networks keys arguments operation h).1.file
unfolding update
update-Kept networks keys arguments operation h =
    elim (Bool-cases (length arguments == length keys)) [
      | inr wrong ↦ rw (wrong, update) Kept.as_before
      | inl right ↦
          rw (right, update)
            (update_read-Kept networks keys arguments operation h (read_document networks h))
    ]

bootstrap_read-Kept :
    (networks : Networks) (t : Tokens) (h : EnvHost) (o : Checked (Option Values))
    → Kept networks h.file (bootstrap_read networks t h o).1.file
bootstrap_read-Kept networks t h (err e) = Kept.as_before
bootstrap_read-Kept networks t h (ok (some d)) = Kept.as_before
bootstrap_read-Kept networks t h (ok none) =
    rw
      (after_write-file networks (report "bootstrap-private-env" "created")
        (write_document networks (fresh_values t) false h))
      (write_document-Kept networks (fresh_values t) false h)

-- A run of the script, whether it succeeds or fails, leaves the file as it was, or a private file
-- with the lines of values that pass every check of `validate`.
pub run_command-Kept :
    (networks : Networks) (command : EnvCommand) (h : EnvHost)
    → Kept networks h.file (run_command networks command h).1.file
unfolding run_command bootstrap
run_command-Kept networks (bootstrap_command t) h =
    bootstrap_read-Kept networks t h (read_document networks h)
run_command-Kept networks verify_command h = Kept.as_before
run_command-Kept networks get_network h = Kept.as_before
run_command-Kept networks get_images h = Kept.as_before
run_command-Kept networks (set_images arguments) h =
    update-Kept networks image_keys arguments "set-images" h
run_command-Kept networks (set_network arguments) h =
    update-Kept networks network_keys arguments "set-network" h
