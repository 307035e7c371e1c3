-- ===== src/Base/Results.antt =====
-- What a call of the program does: it returns, throws, or never comes back.
use mathlib.Core.Bool.{Bool, true, false}
use iexapitest.Base.Texts.{Text}
use iexapitest.Base.Tests.{if◌then◌else◌}

-- The exception classes of the program and of the libraries that it calls. `network_exception`,
-- `http_exception` and `ssl_certificate_exception` are those of common_utils/http_types.h;
-- `foreign` stands for an exception of boost, SQLiteCpp or gRPC that derives from std::exception.
pub data Exception : Type 0 where
  runtime_error : Text → Exception
  invalid_argument : Text → Exception
  out_of_range : Text → Exception
  logic_error : Text → Exception
  ios_failure : Text → Exception
  network_exception : Text → Exception
  http_exception : Text → Exception
  ssl_certificate_exception : Text → Exception
  foreign : Text → Exception
  bad_alloc : Exception

-- Ends of a run that no handler sees.
pub data Fault : Type 0 where
  -- a thread locks a std::mutex that it holds
  self_deadlock : Fault
  -- assert
  assertion : Fault
  -- std::terminate
  terminated : Fault
  -- a null pointer that is followed, or an exception that leaves a signal handler
  undefined : Fault

pub data Result {ℓ} (A : Type ℓ) : Type ℓ where
  ok : A → Result A
  err : Exception → Result A
  halt : Fault → Result A

-- `catch (NetworkException const &)`: the class and its two subclasses
abbrev pub is_network : Exception → Bool
is_network (network_exception m) = true
is_network (http_exception m) = true
is_network (ssl_certificate_exception m) = true
is_network _ = false

-- `catch (HTTPException const &)`
abbrev pub is_http : Exception → Bool
is_http (http_exception m) = true
is_http _ = false

-- `catch (SSLCertificateException const &)`
abbrev pub is_ssl : Exception → Bool
is_ssl (ssl_certificate_exception m) = true
is_ssl _ = false

-- `catch (std::bad_alloc const &)`
abbrev pub is_bad_alloc : Exception → Bool
is_bad_alloc bad_alloc = true
is_bad_alloc _ = false

-- Actions on an object: what was written before an exception stays written.
abbrev pub Exec {ℓ} : Type ℓ → Type ℓ → Type ℓ
Exec S A = S → Result A × S

-- An exception that leaves a thread's function or a destructor ends the process.
abbrev pub or_terminated {ℓ} : {A : Type ℓ} → Result A → Result A
or_terminated (ok a) = ok a
or_terminated (err e) = halt terminated
or_terminated (halt f) = halt f

module _ {ℓ} {S A : Type ℓ} where
  abbrev pub pure : A → Exec S A
  pure a s = (ok a, s)

  abbrev pub throw : Exception → Exec S A
  throw e s = (err e, s)

  abbrev pub lift : Result A → Exec S A
  lift r s = (r, s)

  abbrev pub gets : (S → A) → Exec S A
  gets f s = (ok (f s), s)

  abbrev pub recover : (Exception → Bool) → (Exception → Exec S A) → Result A → Exec S A
  recover fits handler (ok a) s = (ok a, s)
  recover fits handler (err e) s = if fits e then handler e s else (err e, s)
  recover fits handler (halt f) s = (halt f, s)

  -- `try { m } catch (T const &e) { handler(e) }`, where `fits` says which exceptions are a T
  abbrev pub try_catch : Exec S A → (Exception → Bool) → (Exception → Exec S A) → Exec S A
  try_catch m fits handler s = let (r, s') = m s in recover fits handler r s'

  abbrev pub uncaught : Exec S A → Exec S A
  uncaught m s = let (r, s') = m s in (or_terminated r, s')

  -- `assert(test)` in front of `m`
  abbrev pub assert : Bool → Exec S A → Exec S A
  assert test m s = if test then m s else (halt assertion, s)

module _ {ℓ} {S A B : Type ℓ} where
  abbrev pub and_then : Result A → (A → Exec S B) → Exec S B
  and_then (ok a) f s = f a s
  and_then (err e) f s = (err e, s)
  and_then (halt c) f s = (halt c, s)

  infixl 10 ◌>>=◌ ◌>>◌
  abbrev pub ◌>>=◌ : Exec S A → (A → Exec S B) → Exec S B
  ◌>>=◌ m f s = let (r, s') = m s in and_then r f s'

  abbrev pub ◌>>◌ : Exec S A → Exec S B → Exec S B
  m >> n = m >>= λ _. n
