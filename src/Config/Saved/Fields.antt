-- ===== src/Config/Saved/Fields.antt =====
-- The tests of config_update_from_serialized, one by one.
use cvra_bootloader.Prelude.{ℕ, ◌<◌, ◌≡◌, refl, false, List, ◌∷◌, length, arith}
use cvra_bootloader.Prelude.Chars.{c_str, strcmp_eq}
use cvra_bootloader.Platform.{Platform}
use cvra_bootloader.Config.{
  Config, key_id, key_board_name, key_device_class, key_application_crc, key_application_size,
  key_update_count, read_id, read_board_name, read_device_class, read_application_crc,
  read_application_size, read_update_count,
}
use cvra_bootloader.Config.Saved.{Value, text, byte, word, IsCmp}
use cvra_bootloader.Config.Saved.Keys.{read_into}

module _ (p : Platform) (k : IsCmp p.cmp) where
  -- A value is read behind its own key only.
  pub skip_id :
      (key : List ℕ) (s : Config × p.Ctx) → strcmp_eq key_id key ≡ false → read_id p key s ≡ s
  unfolding read_id
  skip_id key s e = rw e refl

  pub skip_board_name :
      (key : List ℕ) (s : Config × p.Ctx)
      → strcmp_eq key_board_name key ≡ false
      → read_board_name p key s ≡ s
  unfolding read_board_name
  skip_board_name key s e = rw e refl

  pub skip_device_class :
      (key : List ℕ) (s : Config × p.Ctx)
      → strcmp_eq key_device_class key ≡ false
      → read_device_class p key s ≡ s
  unfolding read_device_class
  skip_device_class key s e = rw e refl

  pub skip_application_crc :
      (key : List ℕ) (s : Config × p.Ctx)
      → strcmp_eq key_application_crc key ≡ false
      → read_application_crc p key s ≡ s
  unfolding read_application_crc
  skip_application_crc key s e = rw e refl

  pub skip_application_size :
      (key : List ℕ) (s : Config × p.Ctx)
      → strcmp_eq key_application_size key ≡ false
      → read_application_size p key s ≡ s
  unfolding read_application_size
  skip_application_size key s e = rw e refl

  pub skip_update_count :
      (key : List ℕ) (s : Config × p.Ctx)
      → strcmp_eq key_update_count key ≡ false
      → read_update_count p key s ≡ s
  unfolding read_update_count
  skip_update_count key s e = rw e refl

  pub hit_id :
      (key : List ℕ) (v : ℕ) (vs : List Value) (context : p.Ctx) (config : Config)
      → c_str key ≡ key_id
      → k.Ahead context (byte v ∷ vs)
      → (rest : p.Ctx) × (read_id p key (config, context) ≡ (record config { id = v }, rest))
        × k.Ahead rest vs
  unfolding read_id
  hit_id key v vs context config name ahead =
      let (rest, e, ahead') = k.read_uchar_ahead context v vs ahead in
      (rest, rw (name, e) refl, ahead')

  pub hit_board_name :
      (key bytes : List ℕ) (vs : List Value) (context : p.Ctx) (config : Config)
      → c_str key ≡ key_board_name
      → length bytes < 65
      → length config.board_name ≡ 65
      → k.Ahead context (text bytes ∷ vs)
      → (rest : p.Ctx) × (read_board_name p key (config, context)
          ≡ (record config { board_name = read_into bytes config.board_name }, rest))
        × k.Ahead rest vs
  unfolding read_board_name
  hit_board_name key bytes vs context config name short size ahead =
      let (rest, e, ahead') =
        k.read_str_ahead context bytes vs config.board_name 65 short (omega (arith, size)) ahead in
      (rest, rw (name, e) refl, ahead')

  pub hit_device_class :
      (key bytes : List ℕ) (vs : List Value) (context : p.Ctx) (config : Config)
      → c_str key ≡ key_device_class
      → length bytes < 65
      → length config.device_class ≡ 65
      → k.Ahead context (text bytes ∷ vs)
      → (rest : p.Ctx) × (read_device_class p key (config, context)
          ≡ (record config { device_class = read_into bytes config.device_class }, rest))
        × k.Ahead rest vs
  unfolding read_device_class
  hit_device_class key bytes vs context config name short size ahead =
      let (rest, e, ahead') =
        k.read_str_ahead context bytes vs config.device_class 65 short (omega (arith, size))
          ahead in
      (rest, rw (name, e) refl, ahead')

  pub hit_application_crc :
      (key : List ℕ) (v : ℕ) (vs : List Value) (context : p.Ctx) (config : Config)
      → c_str key ≡ key_application_crc
      → k.Ahead context (word v ∷ vs)
      → (rest : p.Ctx) × (read_application_crc p key (config, context)
          ≡ (record config { application_crc = v }, rest))
        × k.Ahead rest vs
  unfolding read_application_crc
  hit_application_crc key v vs context config name ahead =
      let (rest, e, ahead') = k.read_uint_ahead context v vs ahead in
      (rest, rw (name, e) refl, ahead')

  pub hit_application_size :
      (key : List ℕ) (v : ℕ) (vs : List Value) (context : p.Ctx) (config : Config)
      → c_str key ≡ key_application_size
      → k.Ahead context (word v ∷ vs)
      → (rest : p.Ctx) × (read_application_size p key (config, context)
          ≡ (record config { application_size = v }, rest))
        × k.Ahead rest vs
  unfolding read_application_size
  hit_application_size key v vs context config name ahead =
      let (rest, e, ahead') = k.read_uint_ahead context v vs ahead in
      (rest, rw (name, e) refl, ahead')

  pub hit_update_count :
      (key : List ℕ) (v : ℕ) (vs : List Value) (context : p.Ctx) (config : Config)
      → c_str key ≡ key_update_count
      → k.Ahead context (word v ∷ vs)
      → (rest : p.Ctx) × (read_update_count p key (config, context)
          ≡ (record config { update_count = v }, rest))
        × k.Ahead rest vs
  unfolding read_update_count
  hit_update_count key v vs context config name ahead =
      let (rest, e, ahead') = k.read_uint_ahead context v vs ahead in
      (rest, rw (name, e) refl, ahead')
