-- ===== src/Filesystem/Syscalls.antt =====
-- The system calls that common_utils and config make, over an unknown state of the file system.
use iexapitest.Base.{Bool, Option, Text, [], some, true, ℕ, ◌++◌, ◌∷◌, ◌≡◌, ◌≢◌}

pub record Posix : Type 1 where
  pub State : Type 0
  -- `stat(path) == 0`
  pub exists : State → Text → Bool
  -- `st_size` of a path that is there
  pub size : State → Text → ℕ
  -- the bytes that an ifstream on the path delivers; none at all where it does not open
  pub content : State → Text → Text
  -- `mkdir`, `none` where it fails
  pub mkdir : State → Text → Option State
  pub chmod : State → Text → State
  -- `remove`, `none` where it returns -1
  pub remove : State → Text → Option State

-- What is documented of directories. A path that resolves has directories above it.
pub record IsLawful (P : Posix) : Type 0 where
  pub exists-mkdir : (s s' : P.State) (p : Text) → P.mkdir s p ≡ some s' → P.exists s' p ≡ true
  pub exists-mkdir_keep :
      (s s' : P.State) (p q : Text)
      → P.mkdir s p ≡ some s'
      → P.exists s q ≡ true
      → P.exists s' q ≡ true
  pub exists-chmod :
      (s : P.State) (p q : Text) → P.exists s q ≡ true → P.exists (P.chmod s p) q ≡ true
  pub exists_above :
      (s : P.State) (p q : Text) → P.exists s (p ++ b'/' ∷ q) ≡ true → p ≢ [] → P.exists s p ≡ true
