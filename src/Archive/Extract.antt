-- ===== src/Archive/Extract.antt =====
-- downloadAndExtract, decryptArtifactIfNeeded and decodeArtifactKey of job_repo.go.
-- A body is a list of bytes. The cipher and the base64 decoders are parameters, and so are the file
-- operations, over a file system `W`.
pub mod Safe
use rediver_sdk_go.Prelude.{
  ℕ, ◌≡◌, refl, Bool, true, false, ◌||◌, ◌&&◌, not, String, str_eq, is_empty, Option, none, some,
  List, [], ◌∷◌, ◌++◌, ℤ, length, take, drop, ltb, ◌<>◌, if◌then◌else◌,
}
use rediver_sdk_go.Strconv.{trim_space, has_prefix}
use rediver_sdk_go.Errors.{Error, nil, wrapped, plain, is_nil}
use rediver_sdk_go.Archive.Clean.{clean, join_path}

pub data TypeFlag : Type 0 where
  directory regular other : TypeFlag

pub record Header : Type 0 where
  pub name : String
  pub type_flag : TypeFlag
  pub content : List ℕ  -- what `io.Copy` reads for a regular file

-- The file operations, with the directory part of a path (`filepath.Dir`). `write_file` is the
-- opening, writing and closing of one file.
pub record Files (W : Type 0) : Type 0 where
  pub mkdir_all : (path : String) → W → Error × W
  pub write_file : (path : String) → List ℕ → W → Error × W
  pub dir : String → String

-- `filepath.Join(destDir, filepath.Clean("/" + hdr.Name))`
unfoldable pub entry_target : String → String → String
unfolding clean join_path
entry_target dest name = join_path dest (clean ("/" <> name))

-- The test that refuses an entry outside of `dest`.
unfoldable pub is_inside : String → String → Bool
unfolding has_prefix
is_inside dest path = has_prefix (path <> "/") (dest <> "/")

module _ {W : Type 0} (fs : Files W) (dest : String) where
  -- The switch on the type of an entry.
  unfoldable pub write_entry : TypeFlag → List ℕ → String → W → Error × W
  write_entry directory content path w =
      let (e, w') = fs.mkdir_all path w in (if is_nil e then nil else wrapped "create dir" e, w')
  write_entry regular content path w =
      let (e, w') = fs.mkdir_all (fs.dir path) w in
      let (e', w'') = fs.write_file path content w' in
      if is_nil e
      then (if is_nil e' then nil else wrapped "write file" e', w'')
      else (wrapped "create parent dir" e, w')
  write_entry other content path w = (nil, w)

  -- The loop over the entries that `tr.Next()` returns; `end` is the error after the last of them,
  -- nil for io.EOF.
  unfoldable pub extract : List Header → (end : Error) → W → Error × W
  unfolding entry_target is_inside write_entry
  extract [] end w = (if is_nil end then nil else wrapped "read tar entry" end, w)
  extract (hdr ∷ hdrs) end w =
      let path = entry_target dest hdr.name in
      let (e, w') = write_entry hdr.type_flag hdr.content path w in
      let rest = extract hdrs end w' in
      if not (is_inside dest path)
      then (plain "tar entry escapes destination directory", w)
      else if is_nil e
      then rest
      else (e, w')

-- `decodeArtifactKey`; the parameters are the two decoders of encoding/base64.
unfoldable pub decode_artifact_key :
    (String → Option (List ℕ)) → (String → Option (List ℕ)) → String → Option (List ℕ)
decode_artifact_key raw_url std raw =
    if is_empty raw then none else elim (raw_url raw) [ some key ↦ some key | none ↦ std raw ]

pub record Cipher : Type 0 where
  pub raw_url : String → Option (List ℕ)
  pub std : String → Option (List ℕ)
  pub key_is_valid : List ℕ → Bool  -- `aes.NewCipher` and `cipher.NewGCM` succeed
  pub nonce_size : ℕ
  pub open_sealed : (key nonce ciphertext : List ℕ) → Option (List ℕ)  -- `gcm.Open`

abbrev open_body : Cipher → List ℕ → List ℕ → Option (List ℕ)
open_body c key body =
    if not (c.key_is_valid key)
    then none
    else if ltb (length body) c.nonce_size
    then none
    else c.open_sealed key (take c.nonce_size body) (drop c.nonce_size body)

-- `decryptArtifactIfNeeded`; an error is `none`.
unfoldable pub decrypt_artifact_if_needed : Cipher → List ℕ → String → String → Option (List ℕ)
unfolding decode_artifact_key trim_space
decrypt_artifact_if_needed c body encryption_algorithm encryption_key =
    let algorithm = trim_space encryption_algorithm in
    if is_empty algorithm
    then some body
    else if not (str_eq algorithm "AES_256_GCM") && not (str_eq algorithm "ALGORITHM_AES_256_GCM")
    then none
    else elim (decode_artifact_key c.raw_url c.std encryption_key) [
      | none ↦ none
      | some key ↦ open_body c key body
    ]
