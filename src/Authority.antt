-- ===== src/Authority.antt =====
-- internal/ca/generator.go: the certificate authority on disk. Keys, X.509 and PEM are Go's library: how the
-- two files are read as a certificate and a key, and what Generate makes, are parameters.
use dnn_daemon.Common.{
  ◌≡◌, refl, ap, ◌∙◌, Bool, true, false, ◌&&◌, Option, none, some, [], if◌then◌else◌, arith,
}
use mathlib.Core.Path.{subst}
use dnn_daemon.Common.Bytes.{Bytes}

-- A certificate and a key stand for what Go's library parses from their encoding.
pub record Ca : Type 0 where
  pub certificate : Bytes
  pub private_key : Bytes
  pub cert_pem : Bytes
  pub key_pem : Bytes

-- `none` is a file that is not there or cannot be read.
pub record Disk : Type 0 where
  pub cert : Option Bytes
  pub key : Option Bytes

pub data LoadError : Type 0 where
  no_cert no_key cert_not_decoded cert_not_parsed key_not_decoded key_not_parsed : LoadError

pub data Loaded : Type 0 where
  loaded : Ca → Loaded
  not_loaded : LoadError → Loaded

-- Go's library: `pem.Decode`, by the bytes of the block, and the two parsers.
pub record Formats : Type 0 where
  pub decode : Bytes → Option Bytes
  pub parse_certificate : Bytes → Option Bytes
  pub parse_key : Bytes → Option Bytes

-- How far Save comes, with what a file holds after a write of it that failed.
pub data Saving : Type 0 where
  saved no_directory : Saving
  cert_unwritten key_unwritten : Option Bytes → Saving

pub data Result : Type 0 where
  got : Ca → Result
  not_generated not_saved : Result

module _ (f : Formats) where
  abbrev key_from : Ca → Option Bytes → Loaded
  key_from ca none = not_loaded key_not_parsed
  key_from ca (some key) = loaded record ca { private_key = key }

  abbrev key_block : Ca → Option Bytes → Loaded
  key_block ca none = not_loaded key_not_decoded
  key_block ca (some block) = key_from ca (f.parse_key block)

  abbrev cert_from : Bytes → Bytes → Option Bytes → Loaded
  cert_from cert_pem key_pem none = not_loaded cert_not_parsed
  cert_from cert_pem key_pem (some cert) =
      key_block
        record { certificate = cert; private_key = []; cert_pem = cert_pem; key_pem = key_pem }
        (f.decode key_pem)

  abbrev cert_block : Bytes → Bytes → Option Bytes → Loaded
  cert_block cert_pem key_pem none = not_loaded cert_not_decoded
  cert_block cert_pem key_pem (some block) = cert_from cert_pem key_pem (f.parse_certificate block)

  abbrev load_files : Option Bytes → Option Bytes → Loaded
  load_files none key = not_loaded no_cert
  load_files (some cert_pem) none = not_loaded no_key
  load_files (some cert_pem) (some key_pem) = cert_block cert_pem key_pem (f.decode cert_pem)

  unfoldable pub load : Disk → Loaded
  load d = load_files d.cert d.key

-- `Save`: the disk after it and whether it succeeds.
unfoldable pub save : Saving → Ca → Disk → Disk × Bool
save saved ca d = (record { cert = some ca.cert_pem; key = some ca.key_pem }, true)
save no_directory ca d = (d, false)
save (cert_unwritten left) ca d = (record d { cert = left }, false)
save (key_unwritten left) ca d = (record { cert = some ca.cert_pem; key = left }, false)

abbrev is_some : Option Bytes → Bool
is_some none = false
is_some (some file) = true

-- `Exists`, for files that can be read when they are there
unfoldable pub exists : Disk → Bool
exists d = is_some d.cert && is_some d.key

module _ (f : Formats) where
  abbrev saved_as : Ca → Disk × Bool → Disk × Result
  saved_as ca (d, ok) = (d, if ok then got ca else not_saved)

  abbrev generate_into : Option Ca → Saving → Disk → Disk × Result
  generate_into none saving d = (d, not_generated)
  generate_into (some ca) saving d = saved_as ca (save saving ca d)

  abbrev unless : Loaded → Option Ca → Saving → Disk → Disk × Result
  unless (loaded ca) generated saving d = (d, got ca)
  unless (not_loaded e) generated saving d = generate_into generated saving d

  -- By what Generate makes, if it is called, and how far Save comes.
  unfoldable pub load_or_generate : Option Ca → Saving → Disk → Disk × Result
  unfolding load save
  load_or_generate generated saving d = unless (load f d) generated saving d

  -- What Generate makes is read back from its encoding: it encodes a certificate and a key as Load decodes
  -- them.
  pub record IsEncoded (ca : Ca) : Type 0 where
    pub cert_bytes : Bytes
    pub key_bytes : Bytes
    pub decodes_cert : f.decode ca.cert_pem ≡ some cert_bytes
    pub parses_cert : f.parse_certificate cert_bytes ≡ some ca.certificate
    pub decodes_key : f.decode ca.key_pem ≡ some key_bytes
    pub parses_key : f.parse_key key_bytes ≡ some ca.private_key

  pub load-save : (ca : Ca) (d : Disk) → IsEncoded ca → load f (save saved ca d).0 ≡ loaded ca
  unfolding load save
  load-save ca d e = rw (e.decodes_cert, e.parses_cert, e.decodes_key, e.parses_key) refl

  load_exists : {ca : Ca} (d : Disk) → load f d ≡ loaded ca → exists d ≡ true
  unfolding load exists
  load_exists d h = ground (arith, h)

  unless_kept :
      (l : Loaded) (generated : Ca) (saving : Saving) (d d' : Disk) (ca : Ca)
      → load f d ≡ l
      → IsEncoded generated
      → unless l (some generated) saving d ≡ (d', got ca)
      → load f d' ≡ loaded ca
  unfolding save
  unless_kept (loaded first) generated saving d d' ca e h g =
      let same : d ≡ d' = cc (g) in
      let one : first ≡ ca = cc (g) in subst (λ x. load f x ≡ loaded ca) same (e ∙ ap loaded one)
  unless_kept (not_loaded error) generated saved d d' ca e h g =
      let new : Disk = record { cert = some generated.cert_pem; key = some generated.key_pem } in
      let same : new ≡ d' = cc (g) in
      let one : generated ≡ ca = cc (g) in
      subst (λ x. load f x ≡ loaded ca) same (load-save generated d h ∙ ap loaded one)
  unless_kept (not_loaded error) generated no_directory d d' ca e h g = cc (g)
  unless_kept (not_loaded error) generated (cert_unwritten left) d d' ca e h g = cc (g)
  unless_kept (not_loaded error) generated (key_unwritten left) d d' ca e h g = cc (g)

  -- Where what Generate makes is read back from its encoding, and LoadOrGenerate gives an authority, Load gives the same one from then on, the authority exists, and
  -- another LoadOrGenerate gives it again and writes nothing, whatever Generate would make then.
  pub load_or_generate_kept :
      (generated : Ca) (saving : Saving) (d d' : Disk) (ca : Ca) (other : Option Ca)
      (again : Saving)
      → IsEncoded generated
      → load_or_generate (some generated) saving d ≡ (d', got ca)
      → (load f d' ≡ loaded ca)
        × (exists d' ≡ true)
        × (load_or_generate other again d' ≡ (d', got ca))
  unfolding load_or_generate
  load_or_generate_kept generated saving d d' ca other again h g =
      let kept = unless_kept (load f d) generated saving d d' ca refl h g in
      (kept, load_exists d' kept, rw kept refl)
