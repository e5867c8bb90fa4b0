-- ===== src/Artifacts/Result.antt =====
-- artifacts/manifest.py and artifacts/download.py: what they raise, and fallible results.
use voxedge.Base.{◌≡◌, refl, Bool, true, false}
use voxedge.Text.Strip.{Text}

-- ManifestError; ArtifactError, by what is wrong and with the path of the file it is about, where
-- `downloader_error` is one that the downloader raised; and any other exception.
pub data Error : Type 0 where
  manifest_error no_manifest other_error : Error
  absent downloader_error download_failed not_written sha256_mismatch : Text → Error

pub data Result (A : Type 0) : Type 0 where
  ok : A → Result A
  err : Error → Result A

infixl 5 ◌>>=◌ ◌>>◌
abbrev pub ◌>>=◌ : {A B : Type 0} → Result A → (A → Result B) → Result B
ok a >>= f = f a
err e >>= f = err e

abbrev pub ◌>>◌ : {B : Type 0} → Result Unit → Result B → Result B
m >> k = m >>= λ _. k

-- Raises a ManifestError unless the test holds.
abbrev pub require : Bool → Result Unit
require true = ok tt
require false = err manifest_error

-- A property of what is returned.
abbrev pub Holds : {A : Type 0} → (A → Type 0) → Result A → Type 0
Holds Q (ok a) = Q a
Holds Q (err e) = Unit

pub bind_intro :
    {A B : Type 0} (Q : A → Type 0) (S : B → Type 0) (m : Result A) (f : A → Result B)
    → Holds Q m
    → ((a : A) → Q a → Holds S (f a))
    → Holds S (m >>= f)
bind_intro Q S (ok a) f h k = k a h
bind_intro Q S (err e) f h k = tt

pub require_intro :
    {B : Type 0} (S : B → Type 0) (b : Bool) (m : Result B)
    → (b ≡ true → Holds S m)
    → Holds S (require b >> m)
require_intro S true m k = k refl
require_intro S false m k = tt

pub anything : {A : Type 0} (m : Result A) → Holds (λ _. Unit {0}) m
anything (ok a) = tt
anything (err e) = tt
