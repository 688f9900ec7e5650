-- ===== src/Endpoint.antt =====
-- `parseListenAddress` of cmd/csi-driver-ipfs/main.go. `url.Parse` and the file system are parameters.
use csi_driver_ipfs.Base.{
  ◌≡◌, ◌≢◌, refl, inl, inr, Bool, true, false, not, List, [], ◌∷◌, Result, ok, err, arith,
  Bool-cases, Result-cases, if◌then◌else◌,
}
use csi_driver_ipfs.Base.Exec.{Exec, return, fail, ◌>>=◌, ◌>>◌, or_else, attempt}
use csi_driver_ipfs.Text.{Text, lit, text_eq}
use csi_driver_ipfs.MfsPath.{clean}
use csi_driver_ipfs.Errors.{Error, external, wrapped, Op}

-- The parts of a url.URL that are read.
pub record Url : Type 0 where
  pub scheme : Text
  pub path : Text
  pub host : Text

-- `lstat` says of a path that is there whether it is a socket.
pub record System (W : Type 0) : Type 0 where
  pub parse_url : Text → Result Error Url
  pub lstat : Text → Op W Bool
  pub remove : Text → Op W Unit
  pub is_not_exist : Error → Bool

pub data Event : Type 0 where
  stated : Text → Result Error Bool → Event
  removed : Text → Result Error Unit → Event

pub record State (W : Type 0) : Type 0 where
  pub events : List Event
  pub world : W

abbrev pub Part : Type 0 → Type 0 → Type 0
Part W A = Exec (State W) Error A

abbrev call : {W A : Type 0} → Op W A → (Result Error A → Event) → Part W A
call op event s =
    ((op s.world).0, record { events = event (op s.world).0 ∷ s.events; world = (op s.world).1 })

abbrev lift : {W A : Type 0} → Result Error A → Part W A
lift r s = (r, s)

-- statErr == nil && (fi.Mode()&os.ModeSocket) == 0
abbrev pub is_other_file : Result Error Bool → Bool
is_other_file (ok is_socket) = not is_socket
is_other_file (err e) = false

module _ {W : Type 0} (sys : System W) where
  -- removeErr != nil && !os.IsNotExist(removeErr)
  unfoldable pub check_removed : Result Error Unit → Part W Unit
  check_removed (ok _) = return tt
  check_removed (err e) = if sys.is_not_exist e then return tt else fail (wrapped e)

  unfoldable pub clear_socket : Text → Part W Unit
  clear_socket addr = do
    found ← attempt (call (sys.lstat addr) (stated addr))
    if is_other_file found
        then fail (external (lit "refusing to remove non-socket path"))
        else do answer ← attempt (call (sys.remove addr) (removed addr)); check_removed answer

  unfoldable pub listen_unix : Url → Part W (Text × Text)
  listen_unix url = do clear_socket (clean url.path); return (url.scheme, clean url.path)

  -- The switch over the scheme.
  unfoldable pub listen_at : Url → Part W (Text × Text)
  listen_at url =
      if text_eq url.scheme (lit "unix")
      then listen_unix url
      else if text_eq url.scheme (lit "tcp")
      then return (url.scheme, url.host)
      else fail (external (lit "unsupported protocol scheme"))

  -- The scheme and the address.
  unfoldable pub parse_listen_address : Text → Part W (Text × Text)
  parse_listen_address endpoint = do
    url ← or_else (lift (sys.parse_url endpoint)) wrapped
    listen_at url

-- A removal comes directly after the same path was looked at, and not where the look found a file
-- that is not a socket, which it answers by `ok false`.
abbrev pub IsSafe : List Event → Type 0
IsSafe [] = Unit
IsSafe (removed path r ∷ stated looked found ∷ events) =
    (looked ≡ path) × (found ≢ ok false) × IsSafe events
IsSafe (removed path r ∷ []) = ⊥
IsSafe (removed path r ∷ removed other q ∷ events) = ⊥
IsSafe (stated path r ∷ events) = IsSafe events

module _ {W : Type 0} (sys : System W) where
  check_removed_keeps : (r : Result Error Unit) (s : State W) → (check_removed sys r s).1 ≡ s
  unfolding check_removed
  check_removed_keeps (ok _) s = refl
  check_removed_keeps (err e) s = ground arith

  clear_found : (found : Result Error Bool) → is_other_file found ≡ false → found ≢ ok false
  clear_found (ok true) h e = cc e
  clear_found (ok false) h e = cc h
  clear_found (err x) h e = cc e

  clear_socket-IsSafe :
      (addr : Text) (s : State W) → IsSafe s.events → IsSafe (clear_socket sys addr s).1.events
  unfolding clear_socket
  clear_socket-IsSafe addr s h = elim (Bool-cases (is_other_file (sys.lstat addr s.world).0)) [
    | inl other ↦ rw other h
    | inr clear ↦
        rw (clear, check_removed_keeps (sys.remove addr (sys.lstat addr s.world).1).0 _)
          (refl, clear_found (sys.lstat addr s.world).0 clear, h)
  ]

  listen_unix-IsSafe :
      (url : Url) (s : State W) → IsSafe s.events → IsSafe (listen_unix sys url s).1.events
  unfolding listen_unix
  listen_unix-IsSafe url s h = elim (Result-cases (clear_socket sys (clean url.path) s).0) [
    | inl (u, cleared) ↦ rw cleared (clear_socket-IsSafe (clean url.path) s h)
    | inr (e, fails) ↦ rw fails (clear_socket-IsSafe (clean url.path) s h)
  ]

  listen_at-IsSafe :
      (url : Url) (s : State W) → IsSafe s.events → IsSafe (listen_at sys url s).1.events
  unfolding listen_at
  listen_at-IsSafe url s h = elim (Bool-cases (text_eq url.scheme (lit "unix"))) [
    | inl unix ↦ rw unix (listen_unix-IsSafe url s h)
    | inr not_unix ↦ elim (Bool-cases (text_eq url.scheme (lit "tcp"))) [
      | inl tcp ↦ rw (not_unix, tcp) h
      | inr neither ↦ rw (not_unix, neither) h
    ]
  ]

  -- Whatever the endpoint is and the file system answers, a path is removed only right after it was
  -- looked at, and never where the look found a file that is not a socket, if that is so of the
  -- calls before.
  pub parse_listen_address-IsSafe :
      (endpoint : Text) (s : State W)
      → IsSafe s.events
      → IsSafe (parse_listen_address sys endpoint s).1.events
  unfolding parse_listen_address
  parse_listen_address-IsSafe endpoint s h = elim (Result-cases (sys.parse_url endpoint)) [
    | inl (url, parsed) ↦ rw parsed (listen_at-IsSafe url s h)
    | inr (e, fails) ↦ rw fails h
  ]
