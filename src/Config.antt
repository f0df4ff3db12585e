-- ===== src/Config.antt =====
-- config.h and config.c: the configuration of a node, and its page in flash memory.
pub mod Page
pub mod Saved
use cvra_bootloader.Prelude.{
  ℕ, zero, suc, ◌-◌, Bool, false, ◌||◌, List, ◌∷◌, ◌++◌, Option, none, some, bit_or, ltb, ◌==◌,
  if◌then◌else◌, drop, take,
}
use cvra_bootloader.Prelude.Words.{u32, ◌<<<◌, be32}
use cvra_bootloader.Prelude.Chars.{c_str, codes, strcmp_eq}
use cvra_bootloader.Datagram.{store}
use cvra_bootloader.Platform.{Platform, read_bytes}

-- `bootloader_config_t`; a string is the content of its array, or of what its pointer points to.
pub record Config : Type 0 where
  pub id : ℕ
  pub board_name : List ℕ
  pub device_class : List ℕ
  pub application_crc : ℕ
  pub application_size : ℕ
  pub update_count : ℕ
  pub bootloader_commit : List ℕ
  pub bootloader_version : List ℕ

abbrev pub key_id : List ℕ
key_id = codes "ID"

abbrev pub key_board_name : List ℕ
key_board_name = codes "name"

abbrev pub key_device_class : List ℕ
key_device_class = codes "device_class"

abbrev pub key_application_crc : List ℕ
key_application_crc = codes "application_crc"

abbrev pub key_application_size : List ℕ
key_application_size = codes "application_size"

abbrev pub key_update_count : List ℕ
key_update_count = codes "update_count"

abbrev pub key_bootloader_commit : List ℕ
key_bootloader_commit = codes "bootloader_commit"

abbrev pub key_bootloader_version : List ℕ
key_bootloader_version = codes "bootloader_version"

-- `crc |= p[i] << k`, from crc = 0.
unfoldable pub config_read_crc : List ℕ → ℕ
config_read_crc (p0 ∷ p1 ∷ p2 ∷ p3 ∷ rest) =
    bit_or (bit_or (bit_or (bit_or 0 (u32 (p0 <<< 24))) (p1 <<< 16)) (p2 <<< 8)) (p3 <<< 0)
config_read_crc short = 0

-- A read that fails leaves the variable as it was.
abbrev pub or_old : Option ℕ → ℕ → ℕ
or_old none old = old
or_old (some new) old = new

module _ (p : Platform) where
  -- A page as the list of its bytes.
  unfoldable pub config_calculate_crc : List ℕ → ℕ
  config_calculate_crc page = p.crc32 0 (drop 4 page)

  -- `config_is_valid`, where the page lies in flash memory.
  unfoldable pub config_is_valid : p.Flash → ℕ → ℕ → Bool
  unfolding config_read_crc config_calculate_crc
  config_is_valid flash page page_size =
      if ltb page p.flash_begin || ltb p.flash_end page
      then false
      else let bytes = read_bytes (p.byte_at flash) page page_size in
        config_read_crc bytes == config_calculate_crc bytes

  unfoldable pub config_write_messagepack : p.Ctx → Config → p.Ctx
  config_write_messagepack context config =
      let c = p.write_map context 8 in
      let c = p.write_u8 (p.write_str c key_id) config.id in
      let c = p.write_str (p.write_str c key_board_name) (c_str config.board_name) in
      let c = p.write_str (p.write_str c key_device_class) (c_str config.device_class) in
      let c = p.write_uint (p.write_str c key_application_crc) config.application_crc in
      let c = p.write_uint (p.write_str c key_application_size) config.application_size in
      let c = p.write_uint (p.write_str c key_update_count) config.update_count in
      let c = p.write_str (p.write_str c key_bootloader_commit) (c_str config.bootloader_commit) in
      p.write_str (p.write_str c key_bootloader_version) (c_str config.bootloader_version)

  -- The buffer after `config_write`: the four bytes of the checksum, and the MessagePack behind them.
  unfoldable pub config_write : List ℕ → Config → ℕ → List ℕ
  unfolding config_calculate_crc config_write_messagepack
  config_write buffer config buffer_size =
      let context = config_write_messagepack (p.init (drop 4 buffer) (buffer_size - 4)) config in
      let written = take 4 buffer ++ p.memory context in
      be32 (config_calculate_crc written) ++ drop 4 written

  -- The `if`s of the loop body, in order.
  pub read_id : List ℕ → Config × p.Ctx → Config × p.Ctx
  read_id key (config, context) =
      let (v, rest) = p.read_uchar context in
      if strcmp_eq key_id key
      then (record config { id = or_old v config.id }, rest)
      else (config, context)

  pub read_board_name : List ℕ → Config × p.Ctx → Config × p.Ctx
  read_board_name key (config, context) =
      let (name, name_len, rest) = p.read_str context config.board_name 65 in
      if strcmp_eq key_board_name key
      then (record config { board_name = name }, rest)
      else (config, context)

  pub read_device_class : List ℕ → Config × p.Ctx → Config × p.Ctx
  read_device_class key (config, context) =
      let (name, name_len, rest) = p.read_str context config.device_class 65 in
      if strcmp_eq key_device_class key
      then (record config { device_class = name }, rest)
      else (config, context)

  pub read_application_crc : List ℕ → Config × p.Ctx → Config × p.Ctx
  read_application_crc key (config, context) =
      let (v, rest) = p.read_uint context in
      if strcmp_eq key_application_crc key
      then (record config { application_crc = or_old v config.application_crc }, rest)
      else (config, context)

  pub read_application_size : List ℕ → Config × p.Ctx → Config × p.Ctx
  read_application_size key (config, context) =
      let (v, rest) = p.read_uint context in
      if strcmp_eq key_application_size key
      then (record config { application_size = or_old v config.application_size }, rest)
      else (config, context)

  pub read_update_count : List ℕ → Config × p.Ctx → Config × p.Ctx
  read_update_count key (config, context) =
      let (v, rest) = p.read_uint context in
      if strcmp_eq key_update_count key
      then (record config { update_count = or_old v config.update_count }, rest)
      else (config, context)

  unfoldable pub update_entry : List ℕ → Config × p.Ctx → Config × p.Ctx
  update_entry key s = read_update_count key (
      read_application_size key
        (read_application_crc key (read_device_class key (read_board_name key (read_id key s)))))

  -- `key` keeps its content from one round to the next; `none` is the write `key[key_len] = 0`
  -- outside of the array.
  pub update_entries : ℕ → List ℕ → Config × p.Ctx → Option (Config × p.Ctx)
  update_entries zero key s = some s
  update_entries (suc key_count) key (config, context) =
      let (key', key_len, rest) = p.read_str context key 64 in
      elim (store key' key_len 0) [
        | none ↦ none
        | some key'' ↦ update_entries key_count key'' (update_entry key'' (config, rest))
      ]

  -- The second argument is what the array `key` holds on entry.
  unfoldable pub config_update_from_serialized : Config → List ℕ → p.Ctx → Option (Config × p.Ctx)
  unfolding update_entries
  config_update_from_serialized config key context =
      let (key_count, rest) = p.read_map context in
      update_entries (or_old key_count 0) key (config, rest)

  -- `result` and `key` are not initialised in C: what they hold on entry is an argument.
  unfoldable pub config_read : Config → List ℕ → List ℕ → ℕ → Option Config
  unfolding config_update_from_serialized
  config_read result key buffer buffer_size =
      let context = p.ro_init (drop 4 buffer) (buffer_size - 4) in
      elim (config_update_from_serialized result key context) [
        | none ↦ none
        | some (config, rest) ↦ some config
      ]
