-- ===== src/Shm.antt =====
-- The calls of POSIX shared memory that atlas-client/src/channel.rs and atlas-service/src/channel.rs
-- make, and what the two sides' functions have in common.
pub mod Laws
pub mod Relations
pub mod Messages
mod Directory
pub mod Prepare
pub mod Join
pub mod Connect
pub mod Startup
pub mod Timeout
pub mod Link
pub mod Exchange
pub mod Refine
mod InMemory
mod Tests
pub mod Steps
pub mod ClientSide
pub mod ServiceSide
use atlas_io.Base.{ℕ, ◌+◌, ◌*◌, Bool, List}
use atlas_io.Protocol.{IoRequest, IoResponse, ring_capacity}
use atlas_io.Protocol.Names.{Segment, requests, responses, contents}
use atlas_io.Spsc.{SpscRing}
use atlas_io.Spsc.Setup.{
  Panic, AttachError, Attached, Outcome, returned, panicked, init_in_place, attach,
}
use atlas_io.Client.{Memory}

-- The memory of a segment, as the two sides use it.
abbrev pub Content : Segment → Type 0
Content requests = SpscRing IoRequest
Content responses = SpscRing IoResponse
Content contents = Memory

-- What a system call returns: a value, or an errno.
pub data Errno (A : Type 0) : Type 0 where
  done : A → Errno A
  failed : ℕ → Errno A

-- The system calls. `shm_open` is told whether `O_CREAT` is set; `load` and `store` are the accesses
-- through a mapping, which starts at `address`.
pub record Posix : Type 1 where
  pub World : Type 0
  pub Fd : Type 0
  pub Mapping : Type 0
  pub shm_unlink : List ℕ → World → World
  pub shm_open : Bool → List ℕ → World → Errno Fd × World
  pub ftruncate : Fd → ℕ → World → Errno Unit × World
  pub mmap : Fd → ℕ → World → Errno Mapping × World
  pub address : Mapping → ℕ
  pub load : (s : Segment) → Mapping → World → Content s
  pub store : (s : Segment) → Mapping → Content s → World → World

-- The texts of errors: none yet, that of an errno, that of `attach`, and the source's two formats.
pub data Text : Type 0 where
  empty : Text
  of_errno : ℕ → Text
  of_attach req_ring_attach : AttachError → Text
  timeout_joining : Text → Text

-- `std::io::Error`
pub data Error : Type 0 where
  raw_os_error : ℕ → Error
  other : Text → Error

abbrev pub to_string : Error → Text
to_string (raw_os_error e) = of_errno e
to_string (other text) = text

-- `std::io::Result`, or the end of the call by an assertion.
pub data Result (A : Type 0) : Type 0 where
  ok : A → Result A
  err : Error → Result A
  panic : Panic → Result A

-- Code that acts on the world and may end early.
abbrev pub Io : Type 0 → Type 0 → Type 0
Io W A = W → Result A × W

abbrev pub pure : {W A : Type 0} → A → Io W A
pure a w = (ok a, w)

infixl 5 ◌>>=◌ ◌>>◌
abbrev pub ◌>>=◌ : {W A B : Type 0} → Io W A → (A → Io W B) → Io W B
◌>>=◌ m f w =
    let (r, w') = m w in elim r [ ok a ↦ f a w' | err e ↦ (err e, w') | panic p ↦ (panic p, w') ]

abbrev pub ◌>>◌ : {W A B : Type 0} → Io W A → Io W B → Io W B
m >> k = m >>= λ _. k

-- `.map_err(|e| std::io::Error::from_raw_os_error(e as i32))?`
abbrev pub raised : {A : Type 0} → Errno A → Result A
raised (done a) = ok a
raised (failed e) = err (raw_os_error e)

abbrev pub call : {W A : Type 0} → (W → Errno A × W) → Io W A
call f w = let (r, w') = f w in (raised r, w')

-- A call that cannot fail, or whose failure is ignored.
abbrev pub act : {W : Type 0} → (W → W) → Io W Unit
act f w = (ok tt, f w)

-- `SpscRing::size_bytes` for slots of this size: the header takes three cache lines of 128 bytes.
abbrev pub ring_size_bytes : ℕ → ℕ
ring_size_bytes slot_size = 3 * 128 + ring_capacity * slot_size

-- `ReqRing::size_bytes()` and `RespRing::size_bytes()`
abbrev pub req_ring_size : ℕ
req_ring_size = ring_size_bytes 296

abbrev pub resp_ring_size : ℕ
resp_ring_size = ring_size_bytes 32

module _ (os : Posix) where
  -- `SpscRing::init_in_place` on a mapped segment. An assertion comes before the first store.
  abbrev initialized :
      (s : Segment) → os.Mapping → Outcome (Content s) → os.World → Result Unit × os.World
  initialized s m (returned r) w = (ok tt, os.store s m r w)
  initialized s m (panicked p) w = (panic p, w)

  pub init_requests : os.Mapping → Io os.World Unit
  init_requests m w =
      initialized requests m (init_in_place ring_capacity (os.address m) (os.load requests m w)) w

  pub init_responses : os.Mapping → Io os.World Unit
  init_responses m w =
      initialized responses m (init_in_place ring_capacity (os.address m) (os.load responses m w)) w

  -- `SpscRing::attach` on a mapped segment, in the moments of one world: what the other side may do
  -- meanwhile is the subject of Spsc/Setup/Handshake.
  pub attach_requests : os.Mapping → os.World → Outcome Attached
  attach_requests m w =
      let r = os.load requests m w in attach ring_capacity (os.address m) (λ _. r) (λ _. r)

  pub attach_responses : os.Mapping → os.World → Outcome Attached
  attach_responses m w =
      let r = os.load responses m w in attach ring_capacity (os.address m) (λ _. r) (λ _. r)
