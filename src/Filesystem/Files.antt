-- ===== src/Filesystem/Files.antt =====
-- `IsFileExist`, `Remove`, `GetFileSize` and `GetMD5`. The digest is OpenSSL's, over the same bytes.
use iexapitest.Base.{
  Bool, Exec, List, Result, Text, [], codes, drop, err, if◌then◌else◌, ios_failure, length, ltb,
  none, ok, some, suc, take, zero, ℕ, ◌%◌, ◌++◌, ◌+◌, ◌-◌, ◌/◌, ◌∷◌, ◌≡◌,
}
use iexapitest.Filesystem.Syscalls.{Posix}

-- `std::hex` of a value below 16
hex_digit : ℕ → ℕ
hex_digit n = if ltb n 10 then b'0' + n else b'a' + (n - 10)

-- `setw(2) << setfill('0') << hex` of a byte
hex_byte : ℕ → Text
unfolding hex_digit
hex_byte b = hex_digit (b / 16) ∷ hex_digit (b % 16) ∷ []

unfoldable pub hex_text : List ℕ → Text
unfolding hex_byte
hex_text [] = []
hex_text (b ∷ bs) = hex_byte b ++ hex_text bs

-- MD5_CTX: MD5_Init, MD5_Update, MD5_Final.
pub record Md5 : Type 1 where
  pub Context : Type 0
  pub init : Context
  pub update : Context → List ℕ → Context
  pub final : Context → List ℕ

-- `while (ifs.read(buffer, 4096) || ifs.gcount()) MD5_Update(...)`, with fuel
digest_chunks : (D : Md5) → ℕ → ℕ → D.Context → List ℕ → D.Context
digest_chunks D size zero ctx bytes = ctx
digest_chunks D size (suc fuel) ctx [] = ctx
digest_chunks D size (suc fuel) ctx (b ∷ bytes) =
    digest_chunks D size fuel (D.update ctx (take size (b ∷ bytes))) (drop size (b ∷ bytes))

module _ (P : Posix) where
  open P use {State}

  pub is_file_exist : Text → State → Bool
  is_file_exist file_path s = P.exists s file_path

  pub remove : Text → Exec State (Unit {0})
  remove file_path s = elim (P.remove s file_path) [
    | none ↦ (err (ios_failure (codes "Can't remove file: " ++ file_path)), s)
    | some s' ↦ (ok tt, s')
  ]

  pub get_file_size : Text → State → Result ℕ
  get_file_size file_path s =
      if P.exists s file_path
      then ok (P.size s file_path)
      else err (ios_failure (codes "Can't get stat of file: " ++ file_path))

  pub get_md5 : Md5 → Text → State → Result Text
  unfolding is_file_exist digest_chunks hex_text
  get_md5 D file_path s =
      let bytes = P.content s file_path in
      if is_file_exist file_path s
      then ok (hex_text (D.final (digest_chunks D 4096 (length bytes) D.init bytes)))
      else err (ios_failure (codes "Can't find file: " ++ file_path))

-- Updates that may be made in one go: what MD5 promises of any cut of its input.
pub record IsIncremental (D : Md5) : Type 0 where
  pub update-append :
      (c : D.Context) (xs ys : List ℕ) → D.update (D.update c xs) ys ≡ D.update c (xs ++ ys)
  pub update-nil : (c : D.Context) → D.update c [] ≡ c
  pub length-final : (c : D.Context) → length (D.final c) ≡ 16
