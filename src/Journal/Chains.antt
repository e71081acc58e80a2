-- ===== src/Journal/Chains.antt =====
-- Inversion of the chains of calls on a directory.
use kitdev_sandboxes.Base.{◌≡◌, refl, Bool, true, false}
use kitdev_sandboxes.Base.Errors.{ok, err}
use kitdev_sandboxes.Journal.Texts.{Checked, JournalError}
use kitdev_sandboxes.Journal.Directory.{Directory, M, after, look, refuse_if, ◌>>=◌, ◌>>◌}

-- Inversion of a chain on the directory that returns.
pub after-eq-ok :
    {A B : Type 0} (m : M A) (f : A → M B) (d : Directory) {b : B} {d'' : Directory}
    → (m >>= f) d ≡ (ok b, d'')
    → (a : A) × (d' : Directory) × (m d ≡ (ok a, d')) × (f a d' ≡ (ok b, d''))
after-eq-ok {A} {B} m f d {b} {d''} e = go (m d).0 (m d).1 refl e
  where
    go :
        (r : Checked A) (d' : Directory)
        → m d ≡ (r, d')
        → after f r d' ≡ (ok b, d'')
        → (a : A) × (d' : Directory) × (m d ≡ (ok a, d')) × (f a d' ≡ (ok b, d''))
    go (ok a) d' p q = (a, d', p, q)
    go (err x) d' p q = cc

pub look-eq-ok :
    {A B : Type 0} (f : Directory → Checked A) (k : A → M B) (d : Directory) {b : B}
    {d' : Directory}
    → (look f >>= k) d ≡ (ok b, d')
    → (a : A) × (f d ≡ ok a) × (k a d ≡ (ok b, d'))
look-eq-ok {A} {B} f k d {b} {d'} e = go (f d) refl e
  where
    go :
        (r : Checked A)
        → f d ≡ r
        → after k r d ≡ (ok b, d')
        → (a : A) × (f d ≡ ok a) × (k a d ≡ (ok b, d'))
    go (ok a) p q = (a, p, q)
    go (err x) p q = cc

pub refuse_if-eq-ok :
    {B : Type 0} (test : Bool) (x : JournalError) (k : M B) (d : Directory) {b : B} {d' : Directory}
    → (refuse_if test x >> k) d ≡ (ok b, d')
    → (test ≡ false) × (k d ≡ (ok b, d'))
refuse_if-eq-ok true x k d e = cc
refuse_if-eq-ok false x k d e = (refl, e)
