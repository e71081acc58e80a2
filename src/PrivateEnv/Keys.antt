-- ===== src/PrivateEnv/Keys.antt =====
-- The keys of the file are known, and stand in the list once.
use kitdev_sandboxes.Base.{refl, str_eq}
use kitdev_sandboxes.PrivateEnv.Document.{all_keys, split_equals, find_key}
use kitdev_sandboxes.PrivateEnv.Lines.{AreKeys}

pub all_keys-AreKeys : AreKeys all_keys
unfolding split_equals find_key str_eq
all_keys-AreKeys = (
  (refl, λ v. refl, λ v. refl, refl),
  (
    refl,
    (refl, (refl, (refl, (refl, (refl, (refl, (refl, (refl, (refl, (refl, (refl, tt))))))))))),
  ),
  (
    (refl, λ v. refl, λ v. refl, refl),
    (refl, (refl, (refl, (refl, (refl, (refl, (refl, (refl, (refl, (refl, (refl, tt))))))))))),
    (
      (refl, λ v. refl, λ v. refl, refl),
      (refl, (refl, (refl, (refl, (refl, (refl, (refl, (refl, (refl, (refl, tt)))))))))),
      (
        (refl, λ v. refl, λ v. refl, refl),
        (refl, (refl, (refl, (refl, (refl, (refl, (refl, (refl, (refl, tt))))))))),
        (
          (refl, λ v. refl, λ v. refl, refl),
          (refl, (refl, (refl, (refl, (refl, (refl, (refl, (refl, tt)))))))),
          (
            (refl, λ v. refl, λ v. refl, refl),
            (refl, (refl, (refl, (refl, (refl, (refl, (refl, tt))))))),
            (
              (refl, λ v. refl, λ v. refl, refl),
              (refl, (refl, (refl, (refl, (refl, (refl, tt)))))),
              (
                (refl, λ v. refl, λ v. refl, refl),
                (refl, (refl, (refl, (refl, (refl, tt))))),
                (
                  (refl, λ v. refl, λ v. refl, refl),
                  (refl, (refl, (refl, (refl, tt)))),
                  (
                    (refl, λ v. refl, λ v. refl, refl),
                    (refl, (refl, (refl, tt))),
                    (
                      (refl, λ v. refl, λ v. refl, refl),
                      (refl, (refl, tt)),
                      (
                        (refl, λ v. refl, λ v. refl, refl),
                        (refl, tt),
                        ((refl, λ v. refl, λ v. refl, refl), tt, tt),
                      ),
                    ),
                  ),
                ),
              ),
            ),
          ),
        ),
      ),
    ),
  ),
)
