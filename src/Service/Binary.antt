-- ===== src/Service/Binary.antt =====
-- atlas-service/src/main.rs: the arguments of the binary are the instances that it registers.
use atlas_io.Base.{
  ℕ, ◌+◌, ◌-◌, ◌*◌, ◌≡◌, refl, sym, ap, ◌∙◌, Option, none, some, List, [], ◌∷◌, ◌++◌, append_assoc,
  append-nil, ltb, leb, ◌==◌, ◌&&◌, if◌then◌else◌, u32_mod,
}
use atlas_io.Batch.{TaggedRequest}
use atlas_io.Pipeline.{Pipeline}
use atlas_io.Channel.{ServiceChannel}
use atlas_io.Executor.{IoExecutor}
use atlas_io.Service.{AtlasService, register}
use atlas_io.Service.Run.{run}

-- `arg.parse::<u32>()`: decimal digits, after a `+` or not.
abbrev pub parse_digits : ℕ → List ℕ → Option ℕ
parse_digits acc [] = some acc
parse_digits acc (b ∷ bs) =
    let next = acc * 10 + (b - b'0') in
    let rest = parse_digits next bs in
    if leb b'0' b && leb b b'9' && ltb next u32_mod then rest else none

abbrev pub nonempty : List ℕ → Option ℕ
nonempty [] = none
nonempty (b ∷ bs) = parse_digits 0 (b ∷ bs)

abbrev pub parse_u32 : List ℕ → Option ℕ
parse_u32 [] = none
parse_u32 (b ∷ bs) = if b == b'+' then nonempty bs else nonempty (b ∷ bs)

module _ (p : Pipeline) (ex : IoExecutor) (join : ℕ → Option ServiceChannel) where
  abbrev register_parsed : AtlasService p ex → Option ℕ → AtlasService p ex
  register_parsed s none = s
  register_parsed s (some id) = (register p ex s (join id)).1

  -- The loop over the arguments: what is no number is passed over, and a failed `register` is only
  -- reported. `join` is what `ServiceChannel::join` gives.
  unfoldable pub register_args : AtlasService p ex → List (List ℕ) → AtlasService p ex
  register_args s [] = s
  register_args s (arg ∷ args) = register_args (register_parsed s (parse_u32 arg)) args

  -- `register_and_run`, with what arrives before each turn of `run`
  pub register_and_run :
      AtlasService p ex → List (List ℕ) → List (List TaggedRequest) → AtlasService p ex
  register_and_run s args turns = run p ex (register_args s args) turns

  abbrev listed : Option ServiceChannel → List ServiceChannel
  listed none = []
  listed (some ch) = ch ∷ []

  -- The channels of the arguments that are numbers and could be joined.
  abbrev joined : Option ℕ → List ServiceChannel
  joined none = []
  joined (some id) = listed (join id)

  abbrev pub channels_of : List (List ℕ) → List ServiceChannel
  channels_of [] = []
  channels_of (arg ∷ args) = joined (parse_u32 arg) ++ channels_of args

  channels-register :
      (s : AtlasService p ex) (ch : Option ServiceChannel)
      → (register p ex s ch).1.channels ≡ s.channels ++ listed ch
  unfolding register
  channels-register s none = sym (append-nil s.channels)
  channels-register s (some ch) = refl

  channels-register_parsed :
      (s : AtlasService p ex) (id : Option ℕ)
      → (register_parsed s id).channels ≡ s.channels ++ joined id
  channels-register_parsed s none = sym (append-nil s.channels)
  channels-register_parsed s (some id) = channels-register s (join id)

  -- The service gets a channel for each argument that is a number and whose segments it can join,
  -- in the order of the arguments.
  pub channels-register_args :
      (s : AtlasService p ex) (args : List (List ℕ))
      → (register_args s args).channels ≡ s.channels ++ channels_of args
  unfolding register_args
  channels-register_args s [] = sym (append-nil s.channels)
  channels-register_args s (arg ∷ args) =
      channels-register_args (register_parsed s (parse_u32 arg)) args
      ∙ ap (λ cs. cs ++ channels_of args) (channels-register_parsed s (parse_u32 arg))
      ∙ append_assoc s.channels (joined (parse_u32 arg)) (channels_of args)
