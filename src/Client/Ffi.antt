-- ===== src/Client/Ffi.antt =====
-- atlas-client/src/ffi.rs: the C interface.
use atlas_io.Base.{
  ℕ, ◌<◌, ◌^◌, ◌≡◌, ◌≢◌, refl, ap, All, is_neg, ne→==, ℤ, pos, negsuc, as_i32, as_i64, as_i32-small,
  as_i64-small, Option, none, some, List, [], ◌∷◌, ◌++◌, length, drop, ltb, ◌==◌, if◌then◌else◌,
  arith, true,
}
use atlas_io.Protocol.{unwrap_or}
use atlas_io.Protocol.Utf8.{is_utf8, from_utf8}
use atlas_io.Client.{Peer, Result, ok, err, AtlasClient, «open», read, write, sync, close}
use atlas_io.Shm
use atlas_io.Shm.{Posix, Io}
use atlas_io.Shm.ClientSide.{ClientChannel, create}

-- `atlas_client_create`: null when `AtlasClient::new` fails. An assertion aborts the process.
pub atlas_client_create :
    (os : Posix) → (ℕ → os.World → os.World) → ℕ → Io os.World (Option (ClientChannel os))
atlas_client_create os sleep instance_id w =
    let (r, w') = create os sleep instance_id w in
    elim r [
      | Shm.ok channel ↦ (Shm.ok (some channel), w')
      | Shm.err _ ↦ (Shm.ok none, w')
      | Shm.panic p ↦ (Shm.panic p, w')
    ]

-- The bytes of a C string, of which a terminating zero is the last: those before the first zero.
abbrev c_str : List ℕ → List ℕ
c_str [] = []
c_str (b ∷ bs) = if b == 0 then [] else b ∷ c_str bs

c_str-append : (path : List ℕ) → All (λ b. b ≢ 0) path → c_str (path ++ 0 ∷ []) ≡ path
c_str-append [] all = refl
c_str-append (b ∷ bs) (ne, all) = rw (ne→== b 0 ne) (ap (λ l. b ∷ l) (c_str-append bs all))

-- `buf[..n].copy_from_slice(data)` with the length of the bytes for `n`: the buffer afterwards,
-- or nothing when it is too short, which aborts the process.
abbrev copied : List ℕ → List ℕ → Option (List ℕ)
copied bytes buf =
    if ltb (length buf) (length bytes) then none else some (bytes ++ drop (length bytes) buf)

-- `Ok(fd) => fd as i64` and `Err(e) => e as i64`
abbrev fd_or_error : Result ℕ → ℤ
fd_or_error (ok fd) = as_i64 fd
fd_or_error (err e) = e

-- `Ok(n) => n as i32` and `Err(e) => e`
abbrev count_or_error : Result ℕ → ℤ
count_or_error (ok n) = as_i32 (pos n)
count_or_error (err e) = e

-- `Ok(()) => 0` and `Err(e) => e`
abbrev zero_or_error : Result Unit → ℤ
zero_or_error (ok _) = pos 0
zero_or_error (err e) = e

module _ (peer : Peer) where
  abbrev returning :
      {A : Type 0}
      → (Result A → ℤ)
      → Option (Result A × AtlasClient peer)
      → Option (ℤ × AtlasClient peer)
  returning f none = none
  returning f (some (r, c)) = some (f r, c)

  -- Each of these gives nothing when the call does not return.
  pub atlas_client_open : AtlasClient peer → List ℕ → ℕ → Option (ℤ × AtlasClient peer)
  atlas_client_open c path flags =
      returning fd_or_error («open» peer c (unwrap_or (from_utf8 (c_str path)) []) flags)

  abbrev read_into :
      List ℕ → Option (Result (List ℕ) × AtlasClient peer) → Option (ℤ × List ℕ × AtlasClient peer)
  read_into buf none = none
  read_into buf (some (err e, c)) = some (e, buf, c)
  read_into buf (some (ok bytes, c)) = elim (copied bytes buf) [
    | none ↦ none
    | some buf' ↦ some (as_i32 (pos (length bytes)), buf', c)
  ]

  -- The result, and the caller's buffer of `len` bytes afterwards.
  pub atlas_client_read : AtlasClient peer → ℕ → List ℕ → ℕ → Option (ℤ × List ℕ × AtlasClient peer)
  atlas_client_read c fd buf offset = read_into buf (read peer c fd (length buf) offset)

  pub atlas_client_write : AtlasClient peer → ℕ → List ℕ → ℕ → Option (ℤ × AtlasClient peer)
  atlas_client_write c fd buf offset = returning count_or_error (write peer c fd buf offset)

  pub atlas_client_sync : AtlasClient peer → ℕ → Option (ℤ × AtlasClient peer)
  atlas_client_sync c fd = returning zero_or_error (sync peer c fd)

  pub atlas_client_close : AtlasClient peer → ℕ → Option (ℤ × AtlasClient peer)
  atlas_client_close c fd = returning zero_or_error (close peer c fd)

  -- How a C caller reads a result: negative numbers are errors.
  abbrev pub decode : ℤ → Result ℕ
  decode (pos n) = ok n
  decode (negsuc n) = err (negsuc n)

  abbrev pub decode_unit : ℤ → Result Unit
  decode_unit (pos n) = ok tt
  decode_unit (negsuc n) = err (negsuc n)

  abbrev pub decoded :
      {A : Type 0}
      → (ℤ → Result A)
      → Option (ℤ × AtlasClient peer)
      → Option (Result A × AtlasClient peer)
  decoded f none = none
  decoded f (some (z, c)) = some (f z, c)

  -- A number below the bound, or a negative status.
  abbrev pub Fits : ℕ → Option (Result ℕ × AtlasClient peer) → Type 0
  Fits bound none = Unit
  Fits bound (some (ok n, c)) = n < bound
  Fits bound (some (err e, c)) = is_neg e ≡ true

  abbrev pub NegativeErrors : Option (Result Unit × AtlasClient peer) → Type 0
  NegativeErrors none = Unit
  NegativeErrors (some (ok u, c)) = Unit
  NegativeErrors (some (err e, c)) = is_neg e ≡ true

  decode-fd :
      (r : Option (Result ℕ × AtlasClient peer))
      → Fits (2 ^ 63) r
      → decoded decode (returning fd_or_error r) ≡ r
  decode-fd none h = refl
  decode-fd (some (ok n, c)) h = ground (arith, as_i64-small n h)
  decode-fd (some (err (pos n), c)) h = absurd (ground arith)
  decode-fd (some (err (negsuc n), c)) h = refl

  decode-count :
      (r : Option (Result ℕ × AtlasClient peer))
      → Fits (2 ^ 31) r
      → decoded decode (returning count_or_error r) ≡ r
  decode-count none h = refl
  decode-count (some (ok n, c)) h = ground (arith, as_i32-small n h)
  decode-count (some (err (pos n), c)) h = absurd (ground arith)
  decode-count (some (err (negsuc n), c)) h = refl

  decode_unit-zero :
      (r : Option (Result Unit × AtlasClient peer))
      → NegativeErrors r
      → decoded decode_unit (returning zero_or_error r) ≡ r
  decode_unit-zero none h = refl
  decode_unit-zero (some (ok tt, c)) h = refl
  decode_unit-zero (some (err (pos n), c)) h = absurd (ground arith)
  decode_unit-zero (some (err (negsuc n), c)) h = refl

  -- A C caller that takes negative results for errors gets from `atlas_client_open`,
  -- `atlas_client_write`, `atlas_client_sync` and `atlas_client_close` exactly the results of the
  -- Rust calls, for a path that is text without a NUL, as long as the descriptors are below 2 ^ 63,
  -- the counts below 2 ^ 31 and the statuses of errors negative.
  pub decoded-results :
      (c : AtlasClient peer) (path : List ℕ) (flags fd offset : ℕ) (buf : List ℕ)
      → All (λ b. b ≢ 0) path
      → is_utf8 path ≡ true
      → Fits (2 ^ 63) («open» peer c path flags)
      → Fits (2 ^ 31) (write peer c fd buf offset)
      → NegativeErrors (sync peer c fd)
      → NegativeErrors (close peer c fd)
      → (decoded decode (atlas_client_open c (path ++ 0 ∷ []) flags) ≡ «open» peer c path flags)
        × (decoded decode (atlas_client_write c fd buf offset) ≡ write peer c fd buf offset)
        × (decoded decode_unit (atlas_client_sync c fd) ≡ sync peer c fd)
        × (decoded decode_unit (atlas_client_close c fd) ≡ close peer c fd)
  unfolding atlas_client_open atlas_client_write atlas_client_sync atlas_client_close from_utf8
  decoded-results c path flags fd offset buf text utf8 h1 h2 h3 h4 = (
    rw (c_str-append path text, utf8) (decode-fd («open» peer c path flags) h1),
    decode-count (write peer c fd buf offset) h2,
    decode_unit-zero (sync peer c fd) h3,
    decode_unit-zero (close peer c fd) h4,
  )
